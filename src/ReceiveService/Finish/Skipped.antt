-- ===== src/ReceiveService/Finish/Skipped.antt =====
-- src/receiveservice.cpp, finishSession: the files that the sender never got round to.
use harbour_localsend.Common.{
  ℕ, ◌+◌, ◌≡◌, refl, sym, ap, ◌∙◌, Bool, false, ◌||◌, List, [], ◌∷◌, ◌++◌, append_assoc, append-nil,
  length, modify, All, All-append, if◌then◌else◌, Bool-cases, inl, inr, subst,
}
use harbour_localsend.TransferModel.{
  TransferModel, FileEntry, file_skipped, set_file_status, with_status, is_waiting, is_transferring,
}
use harbour_localsend.TransferModel.Files.{set_file_status-files}
use harbour_localsend.TransferModel.Middle.{modify-middle, length-snoc}
use harbour_localsend.ReceiveService.Finish.{skip_rows}

-- A file that is neither waiting nor under way.
abbrev pub IsOver : FileEntry → Type 0
IsOver f = (is_waiting f.status || is_transferring f.status) ≡ false

pub skip_rows-IsOver :
    (now : ℕ) (before after : List FileEntry) (m : TransferModel)
    → m.files ≡ before ++ after
    → All IsOver before
    → All IsOver (skip_rows now (length before) after m).files
unfolding skip_rows
skip_rows-IsOver now before [] m split over = rw (split, append-nil before) over
skip_rows-IsOver now before (f ∷ after) m split over =
    elim (Bool-cases (is_waiting f.status || is_transferring f.status)) [
      | inl left ↦ subst Stays (sym left) (
          subst (λ n. All IsOver (skip_rows now n after marked).files) (length-snoc before skipped)
            (skip_rows-IsOver now (before ++ skipped ∷ []) after marked marked-files
              (All-append _ before (skipped ∷ []) over (refl, tt))))
      | inr closed ↦ subst Stays (sym closed) (
          subst (λ n. All IsOver (skip_rows now n after m).files) (length-snoc before f)
            (skip_rows-IsOver now (before ++ f ∷ []) after m
              (split ∙ sym (append_assoc before (f ∷ []) after))
              (All-append _ before (f ∷ []) over (closed, tt))))
    ]
  where
    skipped : FileEntry
    skipped = with_status file_skipped [] f

    marked : TransferModel
    marked = set_file_status (length before) file_skipped [] now m

    -- The rows behind this one, after a test that gave `b` for it.
    Stays : Bool → Type 0
    Stays b = All IsOver (skip_rows now (length before + 1) after (if b then marked else m)).files

    marked-files : marked.files ≡ (before ++ skipped ∷ []) ++ after
    marked-files =
        set_file_status-files (length before) file_skipped [] now m
        ∙ ap (λ fs. modify fs (length before) (with_status file_skipped [])) split
        ∙ modify-middle before f after (with_status file_skipped [])
        ∙ sym (append_assoc before (skipped ∷ []) after)
