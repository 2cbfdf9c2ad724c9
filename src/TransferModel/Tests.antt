-- ===== src/TransferModel/Tests.antt =====
-- src/transfermodel.cpp, at concrete inputs.
use harbour_localsend.Common.{
  ℕ, ◌+◌, ◌*◌, ◌-◌, ◌≤◌, ◌<◌, ◌≡◌, ◌≢◌, ◌↔◌, refl, arith, true, List, [], ◌∷◌, some, codes, text_eq,
  pos, negsuc, ◌+ℤ◌, mul_ℕ, quot, get_elem?, forall, pos_part,
}
use harbour_localsend.TransferModel.{
  TransferModel, FileEntry, new_file, init, begin, receiving, active, file_done, file_transferring,
  set_state, set_file_status, set_file_transferred, touch, flush, sample_speed, completed_count,
  failed_count, progress, seconds_remaining, current_index, index_of_file, find_row, file_count,
}
use harbour_localsend.TransferModel.Totals.{
  IsValid, Call, state_set, bytes_set, status_set, run, step, run-begin-IsValid, run-IsValid,
}
use harbour_localsend.TransferModel.Rows.{
  index_of_file-first, current_index_bounds, counts_iff_settled, is_settled,
}
use harbour_localsend.TransferModel.Progress.{
  progress-le-one, progress_complete, transferred-le-total, seconds_remaining_bounds,
  set_file_status_done,
}

transfer : Unit {0}
unfolding init begin set_state set_file_status set_file_transferred touch flush sample_speed
    completed_count failed_count progress seconds_remaining current_index index_of_file find_row run
    step ◌+ℤ◌ mul_ℕ quot text_eq
transfer = tt

abbrev photo : FileEntry
photo = record new_file { id = codes "0"; file_name = codes "a.jpg"; size = 3000 }

abbrev note : FileEntry
note = record new_file { id = codes "1"; file_name = codes "b.txt"; size = 1000 }

abbrev started : TransferModel
started =
    begin receiving (codes "Ann") (codes "10.0.0.2") (codes "mobile") (codes "AB")
      (photo ∷ note ∷ []) 5000 init

abbrev calls : List Call
calls =
    state_set active [] 5000
    ∷ status_set 0 file_transferring [] 5001
    ∷ bytes_set 0 (pos 1000)
    ∷ status_set 1 file_transferring [] 6100
    ∷ []

abbrev half_way : TransferModel
half_way = run calls started

half_way_tests :
    (half_way.transferred_bytes ≡ 1000)
    × (half_way.bytes_per_second ≡ pos 909)
    × (seconds_remaining half_way ≡ some 3)
    × (current_index half_way ≡ some 0)
    × ((set_file_transferred 0 (pos 9999) half_way).transferred_bytes ≡ 3000)
    × ((set_file_transferred 0 (negsuc 4) half_way).transferred_bytes ≡ 0)
    × ((set_file_status 1 file_done [] 6200 half_way).transferred_bytes ≡ 2000)
unfolding transfer
half_way_tests = (refl, refl, refl, refl, refl, refl, refl)

run-begin-IsValid_example : IsValid half_way
run-begin-IsValid_example =
    run-begin-IsValid receiving (codes "Ann") (codes "10.0.0.2") (codes "mobile") (codes "AB")
      (photo ∷ note ∷ []) 5000 init calls (refl, (refl, tt))

index_of_file-first_example :
    ((f : FileEntry) × (get_elem? half_way.files 1 ≡ some f) × (f.id ≡ codes "1"))
    × ((j : ℕ) (f : FileEntry) → j < 1 → get_elem? half_way.files j ≡ some f → f.id ≢ codes "1")
unfolding transfer
index_of_file-first_example = index_of_file-first half_way (codes "1") 1 refl

current_index_bounds_example :
    (row : ℕ) × (current_index started ≡ some row) × (row < file_count started)
unfolding transfer
current_index_bounds_example = current_index_bounds started (λ e. cc)

counts_iff_settled_example :
    (completed_count half_way + failed_count half_way ≤ file_count half_way)
    × ((file_count half_way ≤ completed_count half_way + failed_count half_way)
        ↔ (forall is_settled half_way.files ≡ true))
counts_iff_settled_example = counts_iff_settled half_way

progress-le-one_example :
    ((progress half_way).over ≤ (progress half_way).under) × (0 < (progress half_way).under)
progress-le-one_example = progress-le-one half_way

abbrev all_done : TransferModel
all_done = run (status_set 0 file_done [] 7000 ∷ status_set 1 file_done [] 7001 ∷ []) half_way

all_done-IsValid : IsValid all_done
all_done-IsValid =
    run-IsValid (status_set 0 file_done [] 7000 ∷ status_set 1 file_done [] 7001 ∷ []) half_way
      run-begin-IsValid_example2
  where
    run-begin-IsValid_example2 : IsValid half_way
    run-begin-IsValid_example2 =
        run-begin-IsValid receiving (codes "Ann") (codes "10.0.0.2") (codes "mobile") (codes "AB")
          (photo ∷ note ∷ []) 5000 init calls (refl, (refl, tt))

progress_complete_example : (progress all_done).over ≡ (progress all_done).under
unfolding transfer
progress_complete_example =
    progress_complete all_done all_done-IsValid (λ e. cc) ((refl, refl), ((refl, refl), tt))

transferred-le-total_example : half_way.transferred_bytes ≤ half_way.total_bytes
unfolding transfer
transferred-le-total_example =
    transferred-le-total half_way
      (run-begin-IsValid receiving (codes "Ann") (codes "10.0.0.2") (codes "mobile") (codes "AB")
        (photo ∷ note ∷ []) 5000 init calls (refl, (refl, tt)))
      (omega arith)

seconds_remaining_bounds_example :
    (3 * pos_part half_way.bytes_per_second ≤ half_way.total_bytes - half_way.transferred_bytes)
    × (half_way.total_bytes - half_way.transferred_bytes
        < (3 + 1) * pos_part half_way.bytes_per_second)
seconds_remaining_bounds_example = seconds_remaining_bounds half_way 3 half_way_tests.2

set_file_status_done_example :
    get_elem? (set_file_status 1 file_done [] 9 started).files 1
    ≡ some (record note { status = file_done; error = []; transferred = 1000 })
unfolding transfer
set_file_status_done_example = set_file_status_done 1 [] 9 started note refl
