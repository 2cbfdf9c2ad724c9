-- ===== src/TransferModel/Progress.antt =====
-- src/transfermodel.cpp, what the pages show of a transfer: its progress and the time that is left.
use harbour_localsend.Common.{
  ℕ, zero, suc, ◌+◌, ◌*◌, ◌/◌, ◌≤◌, ◌<◌, ◌≡◌, ◌≢◌, refl, arith, Bool, List, [], ◌∷◌, Option, none,
  some, length, get_elem?, modify, All, Text, pos_part, ℤ, pos, negsuc, ◌-◌,
}
use harbour_localsend.TransferModel.{
  TransferModel, FileEntry, FileStatus, file_done, is_done, count_status, progress,
  seconds_remaining, set_file_status, status_at, with_status, sum_sizes, flush, sample_speed, touch,
}
use harbour_localsend.TransferModel.Totals.{IsValid, sum_transferred, IsWithin}

count_status-le : (p : FileStatus → Bool) (fs : List FileEntry) → count_status p fs ≤ length fs
count_status-le p [] = omega arith
count_status-le p (f ∷ fs) = ground (arith, count_status-le p fs)

-- The progress is a fraction between nothing and one in every state.
pub progress-le-one :
    (m : TransferModel) → ((progress m).over ≤ (progress m).under) × (0 < (progress m).under)
unfolding progress
progress-le-one m = by_files m.files refl
  where
    by_files :
        (fs : List FileEntry)
        → m.files ≡ fs
        → ((progress m).over ≤ (progress m).under) × (0 < (progress m).under)
    by_files [] e = ground arith
    by_files (f ∷ fs) e = ground (arith, count_status-le is_done m.files)

-- Every file is done and counts for its size.
abbrev pub IsComplete : FileEntry → Type 0
IsComplete f = (f.status ≡ file_done) × (f.transferred ≡ f.size)

complete-sum : (fs : List FileEntry) → All IsComplete fs → sum_transferred fs ≡ sum_sizes fs
complete-sum [] h = refl
complete-sum (f ∷ fs) h = omega (arith, h.0.1, complete-sum fs h.1)

complete-count : (fs : List FileEntry) → All IsComplete fs → count_status is_done fs ≡ length fs
complete-count [] h = refl
complete-count (f ∷ fs) h = ground (arith, h.0.0, complete-count fs h.1)

-- When all files have been received, the progress is exactly one, also if they are all empty.
pub progress_complete :
    (m : TransferModel)
    → IsValid m
    → m.files ≢ []
    → All IsComplete m.files
    → (progress m).over ≡ (progress m).under
unfolding progress
progress_complete m v ne h =
    ground (arith, v.total, v.sum, complete-sum m.files h, complete-count m.files h)

sum_within :
    (fs : List FileEntry)
    → All IsWithin fs
    → All (λ f. 0 < f.size) fs
    → sum_transferred fs ≤ sum_sizes fs
sum_within [] v h = omega arith
sum_within (f ∷ fs) v h = omega (arith, v.0 h.0, sum_within fs v.1 h.1)

-- The bytes transferred never exceed the total while every file has a size.
pub transferred-le-total :
    (m : TransferModel)
    → IsValid m
    → All (λ f. 0 < f.size) m.files
    → m.transferred_bytes ≤ m.total_bytes
transferred-le-total m v h = omega (arith, v.total, v.sum, sum_within m.files v.within h)

div_bounds : (a d : ℕ) → 0 < d → (a / d * d ≤ a) × (a < (a / d + 1) * d)
div_bounds a d h = grind arith

-- The time shown is the largest whole number of seconds in which the present speed moves no more
-- than what is left.
pub seconds_remaining_bounds :
    (m : TransferModel) (seconds : ℕ)
    → seconds_remaining m ≡ some seconds
    → (seconds * pos_part m.bytes_per_second ≤ m.total_bytes - m.transferred_bytes)
      × (m.total_bytes - m.transferred_bytes < (seconds + 1) * pos_part m.bytes_per_second)
unfolding seconds_remaining
seconds_remaining_bounds m seconds e = by_speed m.bytes_per_second refl
  where
    by_speed :
        (b : ℤ)
        → m.bytes_per_second ≡ b
        → (seconds * pos_part m.bytes_per_second ≤ m.total_bytes - m.transferred_bytes)
          × (m.total_bytes - m.transferred_bytes < (seconds + 1) * pos_part m.bytes_per_second)
    by_speed (pos zero) h = ground arith
    by_speed (pos (suc n)) h =
        ground (arith, div_bounds (m.total_bytes - m.transferred_bytes) (suc n))
    by_speed (negsuc n) h = ground arith

pub get_elem?-modify :
    (fs : List FileEntry) (row : ℕ) (g : FileEntry → FileEntry) {f : FileEntry}
    → get_elem? fs row ≡ some f
    → get_elem? (modify fs row g) row ≡ some (g f)
get_elem?-modify [] row g e = cc
get_elem?-modify (x ∷ fs) zero g e = ground arith
get_elem?-modify (x ∷ fs) (suc row) g {f = f} e = get_elem?-modify fs row g {f = f} e

flush-files : (now : ℕ) (m : TransferModel) → (flush now m).files ≡ m.files
unfolding flush sample_speed
flush-files now m = by_clock m.clock refl
  where
    by_clock : (c : Option ℕ) → m.clock ≡ c → (flush now m).files ≡ m.files
    by_clock none e = ground arith
    by_clock (some t) e = ground arith

-- A file that is set to done counts for its whole size, even if the last progress report never
-- came.
pub set_file_status_done :
    (row : ℕ) (error : Text) (now : ℕ) (m : TransferModel) (f : FileEntry)
    → get_elem? m.files row ≡ some f
    → get_elem? (set_file_status row file_done error now m).files row
      ≡ some (record f { status = file_done; error = error; transferred = f.size })
unfolding set_file_status touch
set_file_status_done row error now m f e =
    rw (e, status_at)
      (rw (flush-files _ _) (get_elem?-modify m.files row (with_status file_done error) {f = f} e))
