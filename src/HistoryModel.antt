-- ===== src/HistoryModel.antt =====
-- src/historymodel.cpp: the log of finished transfers, newest first.
mod Tests
use harbour_localsend.Common.{
  ℕ, zero, suc, ◌+◌, ◌≤◌, ◌<◌, ◌≡◌, refl, arith, List, [], ◌∷◌, length, take, is_empty, erase_idx,
  leb, if◌then◌else◌, Text, get_elem?, Bool-cases, inl, inr, length-take, min, Option, some,
}

abbrev pub max_records : ℕ
max_records = 200

pub record Record : Type 0 where
  pub id : Text
  pub direction : Text
  pub peer_alias : Text
  pub peer_device_type : Text
  pub timestamp : ℕ
  pub file_names : List Text
  pub total_bytes : ℕ
  pub status : Text
  pub destination : Text

-- The records, and what the store holds.
pub record HistoryModel : Type 0 where
  pub records : List Record
  pub file : List Record

abbrev pub saved : List Record → HistoryModel
saved records = record { records = records; file = records }

-- `while (m_records.count() > MaxRecords) m_records.removeLast()` after a prepend
unfoldable pub append : Record → HistoryModel → HistoryModel
append r h = saved (take max_records (r ∷ h.records))

unfoldable pub remove_at : ℕ → HistoryModel → HistoryModel
remove_at row h = if leb (length h.records) row then h else saved (erase_idx h.records row)

unfoldable pub clear : HistoryModel → HistoryModel
clear h = if is_empty h.records then h else saved []

pub record IsValid (h : HistoryModel) : Type 0 where
  pub bounded : length h.records ≤ max_records
  pub stored : h.file ≡ h.records

pub data Call : Type 0 where
  appends : Record → Call
  removes : ℕ → Call
  clears : Call

unfoldable pub step : Call → HistoryModel → HistoryModel
step (appends r) h = append r h
step (removes row) h = remove_at row h
step clears h = clear h

length-erase_idx-le : (rs : List Record) (row : ℕ) → length (erase_idx rs row) ≤ length rs
length-erase_idx-le [] row = omega arith
length-erase_idx-le (r ∷ rs) zero = omega arith
length-erase_idx-le (r ∷ rs) (suc row) = omega (arith, length-erase_idx-le rs row)

-- Every call keeps the log within its limit and leaves the store holding the same log.
pub history_step-IsValid : (c : Call) (h : HistoryModel) → IsValid h → IsValid (step c h)
unfolding step append remove_at clear
history_step-IsValid (appends r) h v = record {
  bounded = omega (arith, length-take max_records (r ∷ h.records));
  stored = refl;
}
history_step-IsValid (removes row) h v = elim (Bool-cases (leb (length h.records) row)) [
  | inl e ↦ rw e v
  | inr e ↦ rw e (record {
    bounded = omega (arith, v.bounded, length-erase_idx-le h.records row);
    stored = refl;
  })
]
history_step-IsValid clears h v = elim (Bool-cases (is_empty h.records)) [
  | inl e ↦ rw e v
  | inr e ↦ rw e (record { bounded = omega arith; stored = refl })
]

get_elem?-take :
    (n : ℕ) (rs : List Record) (i : ℕ) → i < n → get_elem? (take n rs) i ≡ get_elem? rs i
get_elem?-take zero rs i h = elim h [ ]
get_elem?-take (suc n) [] i h = refl
get_elem?-take (suc n) (r ∷ rs) zero h = refl
get_elem?-take (suc n) (r ∷ rs) (suc i) h = get_elem?-take n rs i (omega arith)

-- An appended record comes first, and the records before it move down by one; only the one past
-- the limit is lost.
pub append-get_elem? :
    (r : Record) (h : HistoryModel) (i : ℕ)
    → i + 1 < max_records
    → (get_elem? (append r h).records 0 ≡ some r)
      × (get_elem? (append r h).records (suc i) ≡ get_elem? h.records i)
unfolding append
append-get_elem? r h i lt = (
  get_elem?-take max_records (r ∷ h.records) 0 (omega arith),
  get_elem?-take max_records (r ∷ h.records) (suc i) (omega arith),
)
