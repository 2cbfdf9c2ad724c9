-- ===== src/SendService/Machine/Uploads.antt =====
-- src/sendservice.cpp: the files go out one after the other, each in its turn.
use harbour_localsend.Common.{
  ℕ, suc, ◌+◌, ◌≡◌, ◌<◌, ◌⊎◌, refl, sym, ap, ◌∙◌, inl, inr, arith, Bool, true, false, List, [], ◌∷◌,
  ◌++◌, none, some, length, drop, All-append, Bool-cases, Text, codes, subst, ◌==◌,
}
use harbour_localsend.Platform.{Platform}
use harbour_localsend.TransferModel.{
  FileEntry, FileStatus, file_done, file_failed, file_transferring, set_file_status, with_status,
  is_waiting,
}
use harbour_localsend.TransferModel.Middle.{length-snoc, snoc, drop-append, set_file_status-middle}
use harbour_localsend.ReceiveService.Finish.Skipped.{IsOver}
use harbour_localsend.SendService.State.{Sender, Env, cleared, close_current_file, clear_reply}
use harbour_localsend.SendService.Upload.{
  Reply, set_current, begin_upload, skip_unopened, next_file, start_next_file, is_success,
  upload_answered, after_row, on_upload_finished,
}
use harbour_localsend.SendService.Machine.Modes.{Mode, resting, uploading, IsAbove, IsAt, IsIn}
use harbour_localsend.SendService.Machine.Files.{idle-IsOver}
use harbour_localsend.SendService.Machine.Ends.{
  either, when_off, complete_transfer-rests, fail_transfer-rests,
}
use harbour_localsend.SendService.Machine.Between.{IsBetween, pass, cleared_own}

-- The transfer is over, or a file goes out that has fewer than `n` rows behind it, and its reply is
-- awaited.
abbrev pub IsUnder : ℕ → Sender → Type 0
IsUnder n s =
    IsIn resting s
    ⊎ ((k : IsIn uploading s) × (length k.3.after < n) × ((id : ℕ) × (s.reply ≡ some id)))

weaken : (n : ℕ) (s : Sender) → IsUnder n s → IsUnder (suc n) s
weaken n s (inl k) = inl k
weaken n s (inr (k, less, awaited)) = inr (k, omega (arith, less), awaited)

module _ (q : Platform) (e : Env) where
  abbrev pub IsLanded : Sender → Type 0
  IsLanded s = (n : Mode) × IsIn n s

  landed : (n : ℕ) (s : Sender) → IsUnder n s → IsLanded s
  landed n s (inl k) = (resting, k)
  landed n s (inr (k, less, awaited)) = (uploading, k)

  begin_upload-IsUnder :
      (before : List FileEntry) (f : FileEntry) (fs : List FileEntry) (now : ℕ) (s : Sender)
      → IsBetween before (f ∷ fs) s
      → is_waiting f.status ≡ true
      → IsUnder
          (length (f ∷ fs))
          (begin_upload (length before) f now (record s { current_row = some (length before) }))
  unfolding begin_upload
  begin_upload-IsUnder before f fs now s k waits = inr (
    (
      k.busy,
      k.runs,
      k.session,
      record {
        before = before;
        file = with_status file_transferring [] f;
        after = fs;
        split = set_file_status-middle before f fs file_transferring [] now s.transfer k.split;
        over = k.over;
        ready = k.ready.1;
        row = refl;
        posted = (s.requests, refl);
      },
      (k.session, k.ready.0.1 waits, k.above, k.orderly),
    ),
    omega (arith),
    (length s.requests, refl),
  )

  next_file-lands :
      (now : ℕ) (before fs : List FileEntry) (s : Sender)
      → IsBetween before fs s
      → IsUnder (length fs) (next_file q e now (length before) fs s)
  unfolding next_file skip_unopened
  next_file-lands now before [] s k =
      inl (complete_transfer-rests q e now s (k.replied, k.closed, k.orderly))
  next_file-lands now before (f ∷ fs) s k = elim (Bool-cases (is_waiting f.status)) [
    | inr over ↦ subst Goal (sym over) (
        onward f s (
          next_file-lands now (before ++ f ∷ []) fs s (
            pass before f f fs s s k (idle-IsOver f over k.ready.0.0) k.split refl refl refl refl
              refl refl)))
    | inl waits ↦ subst Goal (sym waits) (elim (Bool-cases (e.opens f.local_path)) [
      | inl opens ↦ subst Opened (sym opens) (begin_upload-IsUnder before f fs now s k waits)
      | inr fails ↦ subst Opened (sym fails) (
          onward failed (skip_unopened (length before) now s) (
            next_file-lands now (before ++ failed ∷ []) fs (skip_unopened (length before) now s) (
              pass before f failed fs s (skip_unopened (length before) now s) k refl
                (set_file_status-middle before f fs file_failed (codes "Could not open the file")
                  now s.transfer k.split)
                refl refl refl refl refl refl)))
    ])
  ]
    where
      failed : FileEntry
      failed = with_status file_failed (codes "Could not open the file") f

      onward :
          (g : FileEntry) (t : Sender)
          → IsUnder (length fs) (next_file q e now (length (before ++ g ∷ [])) fs t)
          → IsUnder (length (f ∷ fs)) (next_file q e now (length before + 1) fs t)
      onward g t k =
          weaken (length fs) (next_file q e now (length before + 1) fs t)
            (subst (λ n. IsUnder (length fs) (next_file q e now n fs t)) (length-snoc before g) k)

      Opened : Bool → Type 0
      Opened b = IsUnder (length (f ∷ fs)) (elim b [
        | true ↦
            begin_upload (length before) f now (record s { current_row = some (length before) })
        | false ↦ next_file q e now (length before + 1) fs (skip_unopened (length before) now s)
      ])

      Goal : Bool → Type 0
      Goal b = IsUnder (length (f ∷ fs)) (elim b [
        | false ↦ next_file q e now (length before + 1) fs s
        | true ↦ elim (e.opens f.local_path) [
          | true ↦
              begin_upload (length before) f now (record s { current_row = some (length before) })
          | false ↦ next_file q e now (length before + 1) fs (skip_unopened (length before) now s)
        ]
      ])

  -- The search goes on behind the rows `before`.
  start_next_file-IsUnder :
      (now : ℕ) (before fs : List FileEntry) (s : Sender)
      → IsBetween before fs (close_current_file s)
      → after_row s.current_row ≡ length before
      → IsUnder (length fs) (start_next_file q e now s)
  unfolding start_next_file close_current_file
  start_next_file-IsUnder now before fs s k row =
      when_off (IsUnder (length fs)) s.cancelled _ _ k.runs (
        subst
          (λ n.
            IsUnder (length fs)
              (next_file q e now n (drop n s.transfer.files) (close_current_file s)))
          (sym row)
          (subst
            (λ rows.
              IsUnder (length fs) (next_file q e now (length before) rows (close_current_file s)))
            (sym (ap (λ files. drop (length before) files) k.split ∙ drop-append before fs))
            (next_file-lands now before fs (close_current_file s) k)))

  pub start_next_file-lands :
      (now : ℕ) (before fs : List FileEntry) (s : Sender)
      → IsBetween before fs (close_current_file s)
      → after_row s.current_row ≡ length before
      → IsLanded (start_next_file q e now s)
  start_next_file-lands now before fs s k row =
      landed (length fs) (start_next_file q e now s) (start_next_file-IsUnder now before fs s k row)

  -- The file under way comes to its end with `status`.
  settled :
      (now : ℕ) (status : FileStatus) (error : Text) (s : Sender) (i : IsAt s)
      → IsIn uploading s
      → s.reply ≡ none
      → IsOver (with_status status error i.file)
      → IsBetween (i.before ++ with_status status error i.file ∷ []) i.after (
          close_current_file
            (record s { transfer = set_file_status (length i.before) status error now s.transfer }))
  unfolding close_current_file
  settled now status error s i (busy, runs, session, _, orderly) reply over = record {
    split =
        set_file_status-middle i.before i.file i.after status error now s.transfer i.split
        ∙ snoc i.before (with_status status error i.file) i.after;
    over = All-append _ i.before (with_status status error i.file ∷ []) i.over (over, tt);
    ready = i.ready;
    busy = busy;
    runs = runs;
    session = session;
    replied = reply;
    closed = refl;
    above =
        subst (λ rs. IsAbove (length (i.before ++ with_status status error i.file ∷ [])) rs)
          (sym i.posted.1) (omega (arith, length-snoc i.before (with_status status error i.file)));
    orderly = orderly;
  }

  upload_answered-IsUnder :
      (r : Reply) (now : ℕ) (s : Sender) (k : IsIn uploading s)
      → s.reply ≡ none
      → IsUnder (length k.3.after) (upload_answered q e r now s)
  unfolding upload_answered
  upload_answered-IsUnder r now s k reply =
      let (busy, runs, session, i, orderly) = k in
      either (IsUnder (length i.after)) (is_success q e r) _ _ (next file_done [] i refl) (
        either (IsUnder (length i.after)) (r.status == 409) _ _
          (inl (fail_transfer-rests q e _ now _ reply orderly))
          (next file_failed r.error_string i refl))
    where
      next :
          (status : FileStatus) (error : Text) (i : IsAt s)
          → IsOver (with_status status error i.file)
          → IsUnder (length i.after) (
              start_next_file q e now (record s {
                transfer =
                    set_current s.current_row
                      (λ row m. set_file_status row status error now m)
                      s.transfer;
              }))
      next status error i over =
          subst
            (λ row. IsUnder (length i.after) (
              start_next_file q e now (record s {
                transfer =
                    set_current row (λ row m. set_file_status row status error now m) s.transfer;
              })))
            (sym i.row)
            (start_next_file-IsUnder now (i.before ++ with_status status error i.file ∷ []) i.after
              (record s {
                transfer = set_file_status (length i.before) status error now s.transfer;
              })
              (settled now status error s i k reply over)
              (ap after_row i.row
                ∙ omega (arith, length-snoc i.before (with_status status error i.file))))

  pub on_upload_finished-IsUnder :
      (id : ℕ) (r : Reply) (now : ℕ) (s : Sender) (k : IsIn uploading s)
      → s.reply ≡ some id
      → IsUnder (length k.3.after) (on_upload_finished q e id r now s)
  unfolding on_upload_finished clear_reply
  on_upload_finished-IsUnder id r now s (busy, runs, session, i, orderly) reply =
      when_off (IsUnder (length i.after)) s.cancelled _ _ runs (
        upload_answered-IsUnder r now (clear_reply id s)
          (
            busy,
            runs,
            session,
            record {
              before = i.before;
              file = i.file;
              after = i.after;
              split = i.split;
              over = i.over;
              ready = i.ready;
              row = i.row;
              posted = i.posted;
            },
            orderly,
          )
          (ap (λ o. cleared o id) reply ∙ cleared_own id))

  pub on_upload_finished-lands :
      (id : ℕ) (r : Reply) (now : ℕ) (s : Sender)
      → IsIn uploading s
      → s.reply ≡ some id
      → IsLanded (on_upload_finished q e id r now s)
  on_upload_finished-lands id r now s k reply =
      landed (length k.3.after) (on_upload_finished q e id r now s)
        (on_upload_finished-IsUnder id r now s k reply)
