-- ===== src/SendService/Upload/Granted/Kept.antt =====
-- src/sendservice.cpp, startNextFile and onUploadFinished: uploads stay with what was granted.
use harbour_localsend.Common.{
  ℕ, zero, suc, ◌+◌, ◌≡◌, refl, sym, ap, ◌∙◌, Bool, true, false, List, [], ◌∷◌, none, some, drop,
  All, Text, codes, Bool-cases, inl, inr, subst,
}
use harbour_localsend.Platform.{Platform}
use harbour_localsend.TransferModel.{FileEntry, file_failed, file_transferring, is_waiting}
use harbour_localsend.SendService.State.{Sender, Env, Request, upload, close_current_file}
use harbour_localsend.SendService.End.{complete_transfer, fail_transfer}
use harbour_localsend.SendService.Upload.{
  next_file, start_next_file, begin_upload, skip_unopened, after_row,
}
use harbour_localsend.SendService.Machine.Ends.{either}
use harbour_localsend.SendService.Machine.Files.{given}
use harbour_localsend.SendService.Upload.Marked.{complete_transfer-files}
use harbour_localsend.SendService.Upload.Granted.{
  IsGiven, IsFaithful, set_file_status-IsGiven, skip_waiting-IsGiven, complete_transfer-frame,
  fail_transfer-frame,
}

module _ (q : Platform) (e : Env) (session : Text) (tokens : List (Text × Text))
    (base : List Request) where
  abbrev IsKept : Sender → Type 0
  IsKept t = IsFaithful session tokens base t

  -- Posting nothing keeps it, if the rows are still given and no reply is awaited.
  pub ended :
      (s t : Sender)
      → IsKept s
      → t.requests ≡ s.requests
      → t.reply ≡ none
      → All (IsGiven tokens) t.transfer.files
      → IsKept t
  ended s t k requests reply given = record {
    new = k.new;
    posted = requests ∙ k.posted;
    granted = k.granted;
    given = given;
    named = inr reply;
  }

  complete_transfer-IsKept :
      (now : ℕ) (s : Sender) → IsKept s → s.reply ≡ none → IsKept (complete_transfer q e now s)
  complete_transfer-IsKept now s k reply =
      ended s (complete_transfer q e now s) k (complete_transfer-frame q e now s).0
        ((complete_transfer-frame q e now s).1 ∙ reply)
        (subst (All (IsGiven tokens)) (sym (complete_transfer-files q e now s)) k.given)

  pub fail_transfer-IsKept :
      (message : Text) (now : ℕ) (s : Sender)
      → IsKept s
      → s.reply ≡ none
      → IsKept (fail_transfer q e message now s)
  fail_transfer-IsKept message now s k reply =
      let (requests, same, files) = fail_transfer-frame q e message now s in
      ended s (fail_transfer q e message now s) k requests (same ∙ reply) (
        subst (All (IsGiven tokens)) (sym files)
          (skip_waiting-IsGiven tokens now 0 s.transfer.files s.transfer k.given))

  next_file-IsKept :
      (now row : ℕ) (fs : List FileEntry) (s : Sender)
      → IsKept s
      → All (IsGiven tokens) fs
      → s.session_id ≡ session
      → s.reply ≡ none
      → IsKept (next_file q e now row fs s)
  unfolding next_file skip_unopened begin_upload
  next_file-IsKept now row [] s k gs named reply = complete_transfer-IsKept now s k reply
  next_file-IsKept now row (f ∷ fs) s k (g, gs) named reply =
      elim (Bool-cases (is_waiting f.status)) [
        | inr over ↦ subst Goal (sym over) (next_file-IsKept now (row + 1) fs s k gs named reply)
        | inl waits ↦ subst Goal (sym waits) (elim (Bool-cases (e.opens f.local_path)) [
          | inl opens ↦ subst Opened (sym opens) (record {
            new = upload row s.session_id f.id f.token f.local_path f.size ∷ k.new;
            posted =
                ap (λ rs. upload row s.session_id f.id f.token f.local_path f.size ∷ rs) k.posted;
            granted = ((named, (g waits).0, (g waits).1, (g waits).2), k.granted);
            given =
                set_file_status-IsGiven tokens row file_transferring [] now s.transfer (λ g. refl)
                  k.given;
            named = inl named;
          })
          | inr fails ↦ subst Opened (sym fails) (
              next_file-IsKept now (row + 1) fs skipped
                (ended s skipped k refl reply (
                  set_file_status-IsGiven tokens row file_failed (codes "Could not open the file")
                    now s.transfer (λ g. refl) k.given))
                gs named reply)
        ])
      ]
    where
      skipped : Sender
      skipped = skip_unopened row now s

      Opened : Bool → Type 0
      Opened b = IsKept (elim b [
        | true ↦ begin_upload row f now (record s { current_row = some row })
        | false ↦ next_file q e now (row + 1) fs skipped
      ])

      Goal : Bool → Type 0
      Goal b = IsKept (elim b [
        | false ↦ next_file q e now (row + 1) fs s
        | true ↦ elim (e.opens f.local_path) [
          | true ↦ begin_upload row f now (record s { current_row = some row })
          | false ↦ next_file q e now (row + 1) fs skipped
        ]
      ])

  All-drop :
      (n : ℕ) (fs : List FileEntry) → All (IsGiven tokens) fs → All (IsGiven tokens) (drop n fs)
  All-drop zero fs k = k
  All-drop (suc n) [] k = tt
  All-drop (suc n) (f ∷ fs) (k, ks) = All-drop n fs ks

  pub start_next_file-IsKept :
      (now : ℕ) (s : Sender)
      → IsKept s
      → s.session_id ≡ session
      → s.reply ≡ none
      → IsKept (start_next_file q e now s)
  unfolding start_next_file close_current_file
  start_next_file-IsKept now s k named reply = either IsKept s.cancelled _ _ closed (
      next_file-IsKept now (after_row s.current_row)
        (drop (after_row s.current_row) s.transfer.files) (close_current_file s) closed
        (All-drop (after_row s.current_row) s.transfer.files k.given) named reply)
    where
      closed : IsKept (close_current_file s)
      closed = ended s (close_current_file s) k refl reply k.given
