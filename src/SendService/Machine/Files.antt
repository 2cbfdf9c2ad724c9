-- ===== src/SendService/Machine/Files.antt =====
-- src/sendservice.cpp: the rows before, at and behind the current one.
use harbour_localsend.Common.{
  ℕ, ◌≡◌, refl, ap, ◌∙◌, inl, inr, false, List, [], ◌∷◌, ◌++◌, append-nil, length, modify, is_empty,
  All, All-append, if◌then◌else◌, Bool-cases, Text, subst,
}
use harbour_localsend.TransferModel.{
  TransferModel, FileEntry, file_skipped, set_file_status, set_file_token, with_status, is_waiting,
}
use harbour_localsend.TransferModel.Middle.{
  modify-middle, length-snoc, snoc, set_file_status-middle,
}
use harbour_localsend.ReceiveService.Finish.Skipped.{IsOver}
use harbour_localsend.SendService.Prepare.{give_tokens, token_of}
use harbour_localsend.SendService.Machine.Modes.{IsIdle, IsReady}

pub idle-IsOver : (f : FileEntry) → is_waiting f.status ≡ false → IsIdle f → IsOver f
idle-IsOver f w i = rw (w, i) refl

-- What a token, or its absence, makes of a file.
abbrev pub given : List (Text × Text) → FileEntry → FileEntry
given tokens f =
    if is_empty (token_of tokens f.id)
    then with_status file_skipped [] f
    else record f { token = token_of tokens f.id }

given-IsReady : (tokens : List (Text × Text)) (f : FileEntry) → IsIdle f → IsReady (given tokens f)
given-IsReady tokens f i = elim (Bool-cases (is_empty (token_of tokens f.id))) [
  | inl left_out ↦ rw left_out (refl, λ e. absurd (cc))
  | inr accepted ↦ rw accepted (i, λ e. accepted)
]

give_token-files :
    (tokens : List (Text × Text)) (now : ℕ) (before : List FileEntry) (f : FileEntry)
    (after : List FileEntry) (m : TransferModel)
    → m.files ≡ before ++ f ∷ after
    → (if is_empty (token_of tokens f.id)
        then set_file_status (length before) file_skipped [] now m
        else set_file_token (length before) (token_of tokens f.id) m).files
      ≡ before ++ given tokens f ∷ after
unfolding set_file_token
give_token-files tokens now before f after m e =
    elim (Bool-cases (is_empty (token_of tokens f.id))) [
      | inl left_out ↦ rw left_out (set_file_status-middle before f after file_skipped [] now m e)
      | inr accepted ↦ rw accepted (
          ap (λ fs. modify fs (length before) (λ g. record g { token = token_of tokens f.id })) e
          ∙ modify-middle before f after _)
    ]

pub give_tokens-All :
    (P Q : FileEntry → Type 0) (tokens : List (Text × Text)) (now : ℕ)
    (before after : List FileEntry) (m : TransferModel)
    → ((f : FileEntry) → P f → Q (given tokens f))
    → m.files ≡ before ++ after
    → All Q before
    → All P after
    → All Q (give_tokens tokens now (length before) after m).files
unfolding give_tokens
give_tokens-All P Q tokens now before [] m gives e r i = rw (e, append-nil before) r
give_tokens-All P Q tokens now before (f ∷ after) m gives e r (i, is) =
    subst (λ n. All Q (give_tokens tokens now n after marked).files)
      (length-snoc before (given tokens f))
      (give_tokens-All P Q tokens now (before ++ given tokens f ∷ []) after marked gives
        (give_token-files tokens now before f after m e ∙ snoc before (given tokens f) after)
        (All-append _ before (given tokens f ∷ []) r (gives f i, tt)) is)
  where
    marked : TransferModel
    marked =
        if is_empty (token_of tokens f.id)
        then set_file_status (length before) file_skipped [] now m
        else set_file_token (length before) (token_of tokens f.id) m

pub give_tokens-IsReady :
    (tokens : List (Text × Text)) (now : ℕ) (m : TransferModel)
    → All IsIdle m.files
    → All IsReady (give_tokens tokens now 0 m.files m).files
give_tokens-IsReady tokens now m i =
    give_tokens-All IsIdle IsReady tokens now [] m.files m (given-IsReady tokens) refl tt i
