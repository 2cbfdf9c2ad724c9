-- ===== src/TransferModel/Totals.antt =====
-- src/transfermodel.cpp, the running totals against the files that they sum up.
use mathlib.Core.Option.{some-injective}
use harbour_localsend.Common.{
  subst, sym, ◌∙◌, text_eq, ◌&&◌, ℕ, zero, suc, ◌+◌, ◌≤◌, ◌<◌, ◌≡◌, refl, arith, false, List, [],
  ◌∷◌, Option, none, some, length, modify, get_elem?, Text, ℤ, pos, All, Option-cases, inl, inr,
  Bool-cases, leb, ◌==◌,
}
use harbour_localsend.TransferModel.{
  State, Direction, FileStatus, FileEntry, TransferModel, begin, flush, set_state, set_destination,
  set_file_token, set_file_local_path, set_file_status, set_file_transferred, touch, sum_sizes,
  with_status, clamp_bytes, sample_if_running, status_at, transferred_at, sample_speed, active,
  state_eq, file_done, file_waiting,
}

abbrev pub sum_transferred : List FileEntry → ℕ
sum_transferred [] = 0
sum_transferred (f ∷ fs) = f.transferred + sum_transferred fs

-- A file of a size above 0 counts for its size at most. One of size 0 may count for any number of
-- bytes: setFileTransferred has no limit for it.
abbrev pub IsWithin : FileEntry → Type 0
IsWithin f = 0 < f.size → f.transferred ≤ f.size

pub record IsValid (m : TransferModel) : Type 0 where
  pub total : m.total_bytes ≡ sum_sizes m.files
  pub sum : m.transferred_bytes ≡ sum_transferred m.files
  pub within : All IsWithin m.files

-- The three facts speak of the files and the two totals only.
same-IsValid :
    (m n : TransferModel)
    → n.files ≡ m.files
    → n.total_bytes ≡ m.total_bytes
    → n.transferred_bytes ≡ m.transferred_bytes
    → IsValid m
    → IsValid n
same-IsValid m n f t b v = record {
  total = rw (f, t) v.total;
  sum = rw (f, b) v.sum;
  within = rw f v.within;
}

sum_sizes-modify :
    (fs : List FileEntry) (row : ℕ) (g : FileEntry → FileEntry)
    → ((f : FileEntry) → (g f).size ≡ f.size)
    → sum_sizes (modify fs row g) ≡ sum_sizes fs
sum_sizes-modify [] row g h = refl
sum_sizes-modify (f ∷ fs) zero g h = omega (arith, h f)
sum_sizes-modify (f ∷ fs) (suc row) g h = omega (arith, sum_sizes-modify fs row g h)

sum_transferred-modify :
    (fs : List FileEntry) (row : ℕ) (g : FileEntry → FileEntry) {f : FileEntry}
    → get_elem? fs row ≡ some f
    → sum_transferred (modify fs row g) + f.transferred ≡ sum_transferred fs + (g f).transferred
sum_transferred-modify [] row g h = cc
sum_transferred-modify (f ∷ fs) zero g h = ground arith
sum_transferred-modify (f ∷ fs) (suc row) g {f = e} h =
    ground (arith, sum_transferred-modify fs row g {f = e})

pub transferred-le-sum :
    (fs : List FileEntry) (row : ℕ) {f : FileEntry}
    → get_elem? fs row ≡ some f
    → f.transferred ≤ sum_transferred fs
transferred-le-sum [] row h = cc
transferred-le-sum (f ∷ fs) zero h = ground arith
transferred-le-sum (f ∷ fs) (suc row) {f = e} h = ground (arith, transferred-le-sum fs row {f = e})

IsWithin-modify :
    (fs : List FileEntry) (row : ℕ) (g : FileEntry → FileEntry)
    → ((f : FileEntry) → IsWithin f → IsWithin (g f))
    → All IsWithin fs
    → All IsWithin (modify fs row g)
IsWithin-modify [] row g h v = tt
IsWithin-modify (f ∷ fs) zero g h v = (h f v.0, v.1)
IsWithin-modify (f ∷ fs) (suc row) g h v = (v.0, IsWithin-modify fs row g h v.1)

IsWithin-modify_at :
    (fs : List FileEntry) (row : ℕ) (g : FileEntry → FileEntry) (f : FileEntry)
    → get_elem? fs row ≡ some f
    → IsWithin (g f)
    → All IsWithin fs
    → All IsWithin (modify fs row g)
IsWithin-modify_at [] row g f e h v = tt
IsWithin-modify_at (x ∷ fs) zero g f e h v =
    let same : x ≡ f = some-injective _ _ e in (subst (λ y. IsWithin (g y)) (sym same) h, v.1)
IsWithin-modify_at (x ∷ fs) (suc row) g f e h v = (v.0, IsWithin-modify_at fs row g f e h v.1)

sample_if_running-same :
    (now : ℕ) (c : Option ℕ) (m : TransferModel)
    → ((sample_if_running now c m).files ≡ m.files)
      × ((sample_if_running now c m).total_bytes ≡ m.total_bytes)
      × ((sample_if_running now c m).transferred_bytes ≡ m.transferred_bytes)
unfolding sample_speed
sample_if_running-same now none m = (refl, refl, refl)
sample_if_running-same now (some t) m = ground arith

pub flush-IsValid : (now : ℕ) (m : TransferModel) → IsValid m → IsValid (flush now m)
unfolding flush
flush-IsValid now m v =
    let (f, t, b) =
      sample_if_running-same now m.clock (record m { dirty_first = none; dirty_last = none }) in
    same-IsValid m _ f t b v

touch-IsValid : (row : ℕ) (m : TransferModel) → IsValid m → IsValid (touch row m)
unfolding touch
touch-IsValid row m v = same-IsValid m _ refl refl refl v

pub set_state-IsValid :
    (s : State) (error : Text) (now : ℕ) (m : TransferModel)
    → IsValid m
    → IsValid (set_state s error now m)
unfolding set_state
set_state-IsValid s error now m v =
    elim (Bool-cases (state_eq m.state s && text_eq m.error_text error)) [
      | inl same ↦ rw same v
      | inr other ↦ elim (Bool-cases (state_eq s active)) [
        | inl e ↦ rw (other, e) (same-IsValid m _ refl refl refl v)
        | inr e ↦ rw (other, e) (same-IsValid _ _ refl refl refl (flush-IsValid now _ changed))
      ]
    ]
  where
    changed : IsValid (record m { state = s; error_text = error; flush_pending = false })
    changed = same-IsValid m _ refl refl refl v

with_status-IsWithin :
    (s : FileStatus) (error : Text) (f : FileEntry) → IsWithin f → IsWithin (with_status s error f)
with_status-IsWithin file_done error f h = omega arith
with_status-IsWithin file_waiting error f h = h
with_status-IsWithin _ error f h = h

size-with_status :
    (s : FileStatus) (error : Text) (f : FileEntry) → (with_status s error f).size ≡ f.size
size-with_status file_done error f = refl
size-with_status file_waiting error f = refl
size-with_status _ error f = refl

set_file_status-IsValid :
    (row : ℕ) (s : FileStatus) (error : Text) (now : ℕ) (m : TransferModel)
    → IsValid m
    → IsValid (set_file_status row s error now m)
unfolding set_file_status touch
set_file_status-IsValid row s error now m v = elim (Option-cases (get_elem? m.files row)) [
  | inl e ↦ rw (e, status_at) v
  | inr (f, e) ↦
      rw (e, status_at)
        (flush-IsValid now _ (record {
          total =
              rw (sum_sizes-modify m.files row (with_status s error) (size-with_status s error))
                v.total;
          sum = omega (
            arith,
            v.sum,
            sum_transferred-modify m.files row (with_status s error) {f = f} e,
            transferred-le-sum m.files row {f = f} e,
          );
          within = IsWithin-modify m.files row _ (with_status-IsWithin s error) v.within;
        }))
]

clamp_bytes-IsWithin : (b : ℤ) (size : ℕ) → 0 < size → clamp_bytes b size ≤ size
clamp_bytes-IsWithin (pos n) size h = ground arith
clamp_bytes-IsWithin (ℤ.negsuc n) size h = omega arith

set_file_transferred-IsValid :
    (row : ℕ) (b : ℤ) (m : TransferModel) → IsValid m → IsValid (set_file_transferred row b m)
unfolding set_file_transferred touch
set_file_transferred-IsValid row b m v = elim (Option-cases (get_elem? m.files row)) [
  | inl e ↦ rw (e, transferred_at) v
  | inr (f, e) ↦ elim (Bool-cases (clamp_bytes b f.size == f.transferred)) [
    | inl same ↦ rw (e, transferred_at, same) v
    | inr other ↦
        rw (e, transferred_at, other)
          (record {
            total =
                v.total
                ∙ sym (
                    sum_sizes-modify m.files row
                      (λ g. record g { transferred = clamp_bytes b f.size }) (λ g. refl));
            sum = omega (
              arith,
              v.sum,
              sum_transferred-modify m.files row
                  (λ g. record g { transferred = clamp_bytes b f.size }) {f = f} e,
              transferred-le-sum m.files row {f = f} e,
            );
            within = IsWithin-modify_at m.files row _ f e (clamp_bytes-IsWithin b f.size) v.within;
          })
  ]
]

-- A change of the files that keeps sizes and counts.
quiet-IsValid :
    (m : TransferModel) (row : ℕ) (g : FileEntry → FileEntry)
    → ((f : FileEntry) → (g f).size ≡ f.size)
    → ((f : FileEntry) → (g f).transferred ≡ f.transferred)
    → IsValid m
    → IsValid (record m { files = modify m.files row g })
quiet-IsValid m row g hs ht v = record {
  total = rw (sum_sizes-modify m.files row g hs) v.total;
  sum = rw (quiet_sum m.files row) v.sum;
  within = IsWithin-modify m.files row g (λ f h. rw (hs f, ht f) h) v.within;
}
  where
    quiet_sum : (fs : List FileEntry) (i : ℕ) → sum_transferred (modify fs i g) ≡ sum_transferred fs
    quiet_sum [] i = refl
    quiet_sum (f ∷ fs) zero = omega (arith, ht f)
    quiet_sum (f ∷ fs) (suc i) = omega (arith, quiet_sum fs i)

set_file_local_path-IsValid :
    (row : ℕ) (path : Text) (m : TransferModel)
    → IsValid m
    → IsValid (set_file_local_path row path m)
unfolding set_file_local_path
set_file_local_path-IsValid row path m v = elim (Bool-cases (leb (length m.files) row)) [
  | inl e ↦ rw e v
  | inr e ↦ rw e (touch-IsValid row _ (quiet-IsValid m row _ (λ f. refl) (λ f. refl) v))
]

-- The calls of the send and receive services that change a transfer under way.
pub data Call : Type 0 where
  state_set : State → Text → ℕ → Call
  destination_set : Text → Call
  token_set : ℕ → Text → Call
  path_set : ℕ → Text → Call
  status_set : ℕ → FileStatus → Text → ℕ → Call
  bytes_set : ℕ → ℤ → Call
  flushed : ℕ → Call

unfoldable pub step : Call → TransferModel → TransferModel
step (state_set s error now) m = set_state s error now m
step (destination_set path) m = set_destination path m
step (token_set row token) m = set_file_token row token m
step (path_set row path) m = set_file_local_path row path m
step (status_set row s error now) m = set_file_status row s error now m
step (bytes_set row b) m = set_file_transferred row b m
step (flushed now) m = flush now m

unfoldable pub run : List Call → TransferModel → TransferModel
run [] m = m
run (c ∷ cs) m = run cs (step c m)

step-IsValid : (c : Call) (m : TransferModel) → IsValid m → IsValid (step c m)
unfolding step set_destination set_file_token
step-IsValid (state_set s error now) m v = set_state-IsValid s error now m v
step-IsValid (destination_set path) m v = same-IsValid m _ refl refl refl v
step-IsValid (token_set row token) m v = quiet-IsValid m row _ (λ f. refl) (λ f. refl) v
step-IsValid (path_set row path) m v = set_file_local_path-IsValid row path m v
step-IsValid (status_set row s error now) m v = set_file_status-IsValid row s error now m v
step-IsValid (bytes_set row b) m v = set_file_transferred-IsValid row b m v
step-IsValid (flushed now) m v = flush-IsValid now m v

pub run-IsValid : (cs : List Call) (m : TransferModel) → IsValid m → IsValid (run cs m)
unfolding run
run-IsValid [] m v = v
run-IsValid (c ∷ cs) m v = run-IsValid cs (step c m) (step-IsValid c m v)

pub begin-IsValid :
    (d : Direction) (alias address device fingerprint : Text) (files : List FileEntry) (now : ℕ)
    (m : TransferModel)
    → All (λ f. f.transferred ≡ 0) files
    → IsValid (begin d alias address device fingerprint files now m)
unfolding begin
begin-IsValid d alias address device fingerprint files now m h = record {
  total = refl;
  sum = none_yet files h;
  within = start files h;
}
  where
    none_yet : (fs : List FileEntry) → All (λ f. f.transferred ≡ 0) fs → 0 ≡ sum_transferred fs
    none_yet [] h = refl
    none_yet (f ∷ fs) h = omega (arith, h.0, none_yet fs h.1)

    start : (fs : List FileEntry) → All (λ f. f.transferred ≡ 0) fs → All IsWithin fs
    start [] h = tt
    start (f ∷ fs) h = (omega (arith, h.0), start fs h.1)

-- From the start of a transfer on, whose files have no bytes yet, after any sequence of calls in any
-- order, the total is the sum of the sizes, the bytes transferred are the sum over the files, and no
-- file whose size is above 0 counts for more than its size.
pub run-begin-IsValid :
    (d : Direction) (alias address device fingerprint : Text) (files : List FileEntry) (now : ℕ)
    (m : TransferModel) (cs : List Call)
    → All (λ f. f.transferred ≡ 0) files
    → IsValid (run cs (begin d alias address device fingerprint files now m))
run-begin-IsValid d alias address device fingerprint files now m cs h =
    run-IsValid cs _ (begin-IsValid d alias address device fingerprint files now m h)
