-- ===== src/TransferModel/Rows.antt =====
-- src/transfermodel.cpp, the searches over the rows and the counts of settled files.
use harbour_localsend.Common.{
  ℕ, zero, suc, ◌+◌, ◌-◌, ◌≤◌, ◌<◌, ◌≡◌, ◌≢◌, ◌↔◌, refl, arith, Bool, true, false, ◌||◌, List, [],
  ◌∷◌, none, some, length, get_elem?, exists, forall, Text, text_eq, text_eq_iff, Bool-cases,
  Option-cases, inl, inr, subst, sym,
}
use harbour_localsend.TransferModel.{
  TransferModel, FileEntry, find_row, index_of_file, current_index, is_done, is_lost,
  is_transferring, is_waiting, count_status, completed_count, failed_count, file_count,
}

find_row-hit :
    (p : FileEntry → Bool) (row : ℕ) (fs : List FileEntry) (i : ℕ)
    → find_row p row fs ≡ some i
    → (k : ℕ) × (i ≡ row + k) × ((f : FileEntry) × (get_elem? fs k ≡ some f) × (p f ≡ true))
unfolding find_row
find_row-hit p row [] i e = cc
find_row-hit p row (f ∷ fs) i e = elim (Bool-cases (p f)) [
  | inl hit ↦ (0, ground arith, (f, refl, hit))
  | inr miss ↦
      let (k, e', found) = find_row-hit p (row + 1) fs i (rw (miss, find_row) at e) in
      (suc k, omega arith, found)
]

find_row-first :
    (p : FileEntry → Bool) (row : ℕ) (fs : List FileEntry) (i j : ℕ) (f : FileEntry)
    → find_row p row fs ≡ some i
    → row + j < i
    → get_elem? fs j ≡ some f
    → p f ≡ false
unfolding find_row
find_row-first p row [] i j f e h g = cc
find_row-first p row (x ∷ fs) i zero f e h g = ground arith
find_row-first p row (x ∷ fs) i (suc j) f e h g = elim (Bool-cases (p x)) [
  | inl hit ↦ absurd (ground arith)
  | inr miss ↦ find_row-first p (row + 1) fs i j f (rw (miss, find_row) at e) (omega arith) g
]

find_row-none_iff :
    (p : FileEntry → Bool) (row : ℕ) (fs : List FileEntry)
    → (find_row p row fs ≡ none) ↔ (exists p fs ≡ false)
unfolding find_row
find_row-none_iff p row [] = ground arith
find_row-none_iff p row (f ∷ fs) = ground (arith, find_row-none_iff p (row + 1) fs)

-- The row that is found for an id holds a file with that id, and no row before it does.
pub index_of_file-first :
    (m : TransferModel) (file_id : Text) (row : ℕ)
    → index_of_file m file_id ≡ some row
    → ((f : FileEntry) × (get_elem? m.files row ≡ some f) × (f.id ≡ file_id))
      × ((j : ℕ) (f : FileEntry) → j < row → get_elem? m.files j ≡ some f → f.id ≢ file_id)
unfolding index_of_file
index_of_file-first m file_id row e =
    let (k, at_k, (f, found, same)) = find_row-hit (λ f. text_eq f.id file_id) 0 m.files row e in
    let here : row ≡ k = omega arith in
    (
      (
        f,
        subst (λ r. get_elem? m.files r ≡ some f) (sym here) found,
        (text_eq_iff f.id file_id).0 same,
      ),
      λ j g h at_j eq.
          let miss =
            find_row-first (λ f. text_eq f.id file_id) 0 m.files row j g e (omega arith) at_j in
          ground (arith, miss, (text_eq_iff g.id file_id).1 eq),
    )

-- An id is not found exactly when no file has it.
pub index_of_file-none_iff :
    (m : TransferModel) (file_id : Text)
    → (index_of_file m file_id ≡ none) ↔ (exists (λ f. text_eq f.id file_id) m.files ≡ false)
unfolding index_of_file
index_of_file-none_iff m file_id = find_row-none_iff _ 0 m.files

get_elem?-lt :
    (fs : List FileEntry) (k : ℕ) (f : FileEntry) → get_elem? fs k ≡ some f → k < length fs
get_elem?-lt [] k f e = cc
get_elem?-lt (x ∷ fs) zero f e = omega arith
get_elem?-lt (x ∷ fs) (suc k) f e = omega (arith, get_elem?-lt fs k f e)

find_row-lt :
    (p : FileEntry → Bool) (fs : List FileEntry) (i : ℕ) → find_row p 0 fs ≡ some i → i < length fs
find_row-lt p fs i e =
    let (k, at_k, (f, found, same)) = find_row-hit p 0 fs i e in
    omega (arith, get_elem?-lt fs k f found)

-- The page always has a row to show while there are files, and never one outside the list.
pub current_index_bounds :
    (m : TransferModel)
    → m.files ≢ []
    → (row : ℕ) × (current_index m ≡ some row) × (row < file_count m)
unfolding current_index
current_index_bounds m ne =
    elim (Option-cases (find_row (λ f. is_transferring f.status) 0 m.files)) [
      | inr (i, e) ↦ (i, rw e, find_row-lt _ m.files i e)
      | inl e ↦ elim (Option-cases (find_row (λ f. is_waiting f.status) 0 m.files)) [
        | inr (i, e') ↦ (i, rw (e, e'), find_row-lt _ m.files i e')
        | inl e' ↦ (length m.files - 1, rw (e, e') (ground arith), ground arith)
      ]
    ]

abbrev pub is_settled : FileEntry → Bool
is_settled f = is_done f.status || is_lost f.status

counts :
    (fs : List FileEntry)
    → (count_status is_done fs + count_status is_lost fs ≤ length fs)
      × ((length fs ≤ count_status is_done fs + count_status is_lost fs)
          ↔ (forall is_settled fs ≡ true))
counts [] = ground arith
counts (f ∷ fs) = ground (arith, counts fs)

-- The test by which a session ends, that the files done and lost are no fewer than all, holds
-- exactly when every file is done, failed or skipped; the two counts never exceed the files.
pub counts_iff_settled :
    (m : TransferModel)
    → (completed_count m + failed_count m ≤ file_count m)
      × ((file_count m ≤ completed_count m + failed_count m) ↔ (forall is_settled m.files ≡ true))
unfolding completed_count failed_count
counts_iff_settled m = counts m.files
