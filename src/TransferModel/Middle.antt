-- ===== src/TransferModel/Middle.antt =====
-- src/transfermodel.cpp: the row between those before it and those behind it.
use harbour_localsend.Common.{
  ℕ, ◌+◌, ◌≡◌, refl, sym, ap, ◌∙◌, inl, inr, arith, List, [], ◌∷◌, ◌++◌, some, append_assoc, length,
  drop, modify, get_elem?, ◌==◌, Bool-cases, Text, ℤ,
}
use harbour_localsend.TransferModel.{
  TransferModel, FileEntry, FileStatus, set_file_status, set_file_transferred, transferred_at,
  with_status, clamp_bytes, touch,
}
use harbour_localsend.TransferModel.Files.{set_file_status-files}

pub modify-middle :
    (before : List FileEntry) (f : FileEntry) (after : List FileEntry) (g : FileEntry → FileEntry)
    → modify (before ++ f ∷ after) (length before) g ≡ before ++ g f ∷ after
modify-middle [] f after g = refl
modify-middle (b ∷ before) f after g = ap (λ fs. b ∷ fs) (modify-middle before f after g)

pub length-snoc : (fs : List FileEntry) (f : FileEntry) → length (fs ++ f ∷ []) ≡ length fs + 1
length-snoc [] f = refl
length-snoc (g ∷ fs) f = omega (arith, length-snoc fs f)

-- A file is taken over to the rows before.
pub snoc :
    (before : List FileEntry) (f : FileEntry) (after : List FileEntry)
    → before ++ f ∷ after ≡ (before ++ f ∷ []) ++ after
snoc before f after = sym (append_assoc before (f ∷ []) after)

pub drop-append : (before after : List FileEntry) → drop (length before) (before ++ after) ≡ after
drop-append [] after = refl
drop-append (b ∷ before) after = drop-append before after

-- The row behind `before` gets a status.
pub set_file_status-middle :
    (before : List FileEntry) (f : FileEntry) (after : List FileEntry) (status : FileStatus)
    (error : Text) (now : ℕ) (m : TransferModel)
    → m.files ≡ before ++ f ∷ after
    → (set_file_status (length before) status error now m).files
      ≡ before ++ with_status status error f ∷ after
set_file_status-middle before f after status error now m e =
    set_file_status-files (length before) status error now m
    ∙ ap (λ fs. modify fs (length before) (with_status status error)) e
    ∙ modify-middle before f after (with_status status error)

get_elem-middle :
    (before : List FileEntry) (f : FileEntry) (after : List FileEntry)
    → get_elem? (before ++ f ∷ after) (length before) ≡ some f
get_elem-middle [] f after = refl
get_elem-middle (b ∷ before) f after = get_elem-middle before f after

-- Progress changes nothing but the bytes of its file.
pub progress-middle :
    (before : List FileEntry) (f : FileEntry) (after : List FileEntry) (sent : ℤ)
    (m : TransferModel)
    → m.files ≡ before ++ f ∷ after
    → (t : ℕ) × ((set_file_transferred (length before) sent m).files
        ≡ before ++ (record f { transferred = t }) ∷ after)
unfolding set_file_transferred touch
progress-middle before f after sent m e =
    elim (Bool-cases (clamp_bytes sent f.size == f.transferred)) [
      | inl same ↦ (f.transferred, rw (there, transferred_at, same) e)
      | inr other ↦ (
        clamp_bytes sent f.size,
        rw (there, transferred_at, other)
            (ap (λ fs. modify fs (length before) grown) e ∙ modify-middle before f after grown),
      )
    ]
  where
    grown : FileEntry → FileEntry
    grown g = record g { transferred = clamp_bytes sent f.size }

    there : get_elem? m.files (length before) ≡ some f
    there = ap (λ fs. get_elem? fs (length before)) e ∙ get_elem-middle before f after
