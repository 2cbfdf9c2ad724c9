-- ===== src/SendService/Upload/Granted.antt =====
-- src/sendservice.cpp: each upload goes out with what the peer granted.
pub mod Kept
pub mod Answers
use harbour_localsend.Common.{
  ℕ, zero, suc, ◌+◌, ◌≡◌, refl, sym, ap, ◌∙◌, arith, Bool, true, false, not, ◌&&◌, ◌||◌, List, [],
  ◌∷◌, ◌++◌, Option, none, some, length, drop, modify, is_empty, All, ltb, leb, if◌then◌else◌, Text,
  codes, Bool-cases, inl, inr, ◌⊎◌, subst, ◌==◌, find,
}
use harbour_localsend.Platform.{Platform}
use harbour_localsend.TransferModel.{
  TransferModel, FileEntry, FileStatus, file_done, file_failed, file_transferring, file_skipped,
  with_status, is_waiting, set_file_status, set_state, State, active, finished, failed,
  completed_count,
}
use harbour_localsend.TransferModel.Files.{set_file_status-files, set_state-files}
use harbour_localsend.SendService.State.{
  Sender, Env, Request, prepare, upload, cancelling, cleared, clear_reply, close_current_file,
}
use harbour_localsend.SendService.End.{
  complete_transfer, write_history, end_state, fail_transfer, skip_waiting, write_if_any,
}
use harbour_localsend.SendService.Upload.{
  Reply, set_current, next_file, start_next_file, upload_answered, on_upload_finished, is_success,
  begin_upload, skip_unopened, after_row,
}
use harbour_localsend.SendService.Prepare.{
  on_prepare_finished, prepare_answered, read_answer, end_early, token_of, count_accepted,
  give_tokens, take_tokens,
}
use harbour_localsend.SendService.Machine.Ends.{either, when_on, when_off}
use harbour_localsend.SendService.Machine.Files.{given, give_tokens-All}
use harbour_localsend.SendService.Machine.Between.{cleared_own}
use harbour_localsend.SendService.Machine.Ending.{answer_next, answer_all}
use harbour_localsend.SendService.Upload.Marked.{complete_transfer-files}

-- What the peer granted: its session, and a token for the file.
abbrev pub IsGranted : Text → List (Text × Text) → Request → Type 0
IsGranted session tokens (prepare pin files) = ⊥
IsGranted session tokens (cancelling session_id) = ⊥
IsGranted session tokens (upload row session_id file_id token local_path size) =
    (session_id ≡ session)
    × (is_empty file_id ≡ false)
    × (is_empty token ≡ false)
    × (token_of tokens file_id ≡ token)

-- A file that waits has a name and the token that was granted for it.
abbrev pub IsGiven : List (Text × Text) → FileEntry → Type 0
IsGiven tokens f =
    is_waiting f.status ≡ true
    → (is_empty f.id ≡ false) × (is_empty f.token ≡ false) × (token_of tokens f.id ≡ f.token)

-- Since `base` only granted uploads were posted; the session is that of the peer until no reply is
-- awaited.
pub record IsFaithful (session : Text) (tokens : List (Text × Text)) (base : List Request)
    (s : Sender) : Type 0 where
  pub new : List Request
  pub posted : s.requests ≡ new ++ base
  pub granted : All (IsGranted session tokens) new
  pub given : All (IsGiven tokens) s.transfer.files
  pub named : (s.session_id ≡ session) ⊎ (s.reply ≡ none)

All-modify :
    (P : FileEntry → Type 0) (g : FileEntry → FileEntry) (fs : List FileEntry) (row : ℕ)
    → ((f : FileEntry) → P (g f))
    → All P fs
    → All P (modify fs row g)
All-modify P g [] row h k = tt
All-modify P g (f ∷ fs) zero h (k, ks) = (h f, ks)
All-modify P g (f ∷ fs) (suc row) h (k, ks) = (k, All-modify P g fs row h ks)

pub set_file_status-IsGiven :
    (tokens : List (Text × Text)) (row : ℕ) (status : FileStatus) (error : Text) (now : ℕ)
    (m : TransferModel)
    → ((f : FileEntry) → is_waiting (with_status status error f).status ≡ false)
    → All (IsGiven tokens) m.files
    → All (IsGiven tokens) (set_file_status row status error now m).files
set_file_status-IsGiven tokens row status error now m over k =
    subst (All (IsGiven tokens)) (sym (set_file_status-files row status error now m)) (
      All-modify (IsGiven tokens) (with_status status error) m.files row
        (λ f waits. absurd (cc (over f, waits))) k)

pub skip_waiting-IsGiven :
    (tokens : List (Text × Text)) (now row : ℕ) (fs : List FileEntry) (m : TransferModel)
    → All (IsGiven tokens) m.files
    → All (IsGiven tokens) (skip_waiting now row fs m).files
unfolding skip_waiting
skip_waiting-IsGiven tokens now row [] m k = k
skip_waiting-IsGiven tokens now row (f ∷ fs) m k = elim (Bool-cases (is_waiting f.status)) [
  | inl waits ↦
      rw (waits, All)
        (skip_waiting-IsGiven tokens now (row + 1) fs _
          (set_file_status-IsGiven tokens row file_skipped [] now m (λ g. refl) k))
  | inr over ↦ rw (over, All) (skip_waiting-IsGiven tokens now (row + 1) fs m k)
]

abbrev pub IsNamed : FileEntry → Type 0
IsNamed f = is_empty f.id ≡ false

pub given-IsGiven :
    (tokens : List (Text × Text)) (f : FileEntry) → IsNamed f → IsGiven tokens (given tokens f)
given-IsGiven tokens f named = elim (Bool-cases (is_empty (token_of tokens f.id))) [
  | inl left_out ↦ rw left_out (λ waits. absurd (cc))
  | inr accepted ↦ rw accepted (λ waits. (named, accepted, refl))
]

module _ (q : Platform) (e : Env) where
  pub complete_transfer-frame :
      (now : ℕ) (s : Sender)
      → ((complete_transfer q e now s).requests ≡ s.requests)
        × ((complete_transfer q e now s).reply ≡ s.reply)
  unfolding complete_transfer write_history
  complete_transfer-frame now s =
      either (λ t. (t.requests ≡ s.requests) × (t.reply ≡ s.reply)) (not s.settings.history_enabled)
        _ _ (refl, refl) (refl, refl)

  pub fail_transfer-frame :
      (message : Text) (now : ℕ) (s : Sender)
      → ((fail_transfer q e message now s).requests ≡ s.requests)
        × ((fail_transfer q e message now s).reply ≡ s.reply)
        × ((fail_transfer q e message now s).transfer.files
            ≡ (skip_waiting now 0 s.transfer.files s.transfer).files)
  unfolding fail_transfer write_history close_current_file
  fail_transfer-frame message now s =
      let Frame : Sender → Type 0 = λ t.
        (t.requests ≡ s.requests)
        × (t.reply ≡ s.reply)
        × (t.transfer.files ≡ (skip_waiting now 0 s.transfer.files s.transfer).files) in
      let kept =
        set_state-files failed message now (skip_waiting now 0 s.transfer.files s.transfer) in
      either Frame
        (ltb 0 (
          completed_count
            (set_state failed message now (skip_waiting now 0 s.transfer.files s.transfer))))
        _ _
        (either Frame (not s.settings.history_enabled) _ _ (refl, refl, kept) (refl, refl, kept))
        (refl, refl, kept)
