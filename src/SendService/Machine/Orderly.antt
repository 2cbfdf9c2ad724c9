-- ===== src/SendService/Machine/Orderly.antt =====
-- src/sendservice.cpp: whatever happens, the service is in one of its modes.
use harbour_localsend.Common.{
  ℕ, ◌≡◌, sym, ap, ◌∙◌, inl, inr, true, not, ◌||◌, is_empty, List, [], ◌∷◌, length, if◌then◌else◌,
  Text, ℤ, subst,
}
use mathlib.Core.Option.{some-injective}
use harbour_localsend.Platform.{Platform}
use harbour_localsend.TransferModel.Middle.{progress-middle}
use harbour_localsend.SendService.State.{
  Sender, Env, Request, prepare, upload, cancelling, cleared, clear_reply,
}
use harbour_localsend.SendService.End.{cancel}
use harbour_localsend.SendService.Upload.{Reply, on_upload_finished, on_upload_progress}
use harbour_localsend.SendService.Prepare.{Device, submit_pin, send_files, on_prepare_finished}
use harbour_localsend.SendService.Prepare.Told.{
  on_prepare_finished-lands, submit_pin-lands, send_files-lands,
}
use harbour_localsend.SendService.Machine.{
  Event, sends, submits, prepare_replies, upload_replies, progresses, cancels, step,
}
use harbour_localsend.SendService.Machine.Modes.{
  Mode, resting, asking, uploading, IsAsked, IsUploaded, IsOrderly, IsAt, IsIn, IsReached,
  IsExpected,
}
use harbour_localsend.SendService.Machine.Ends.{when_on, cancel-rests}
use harbour_localsend.SendService.Machine.Uploads.{IsLanded, on_upload_finished-lands}

IsUploaded-IsAsked : (rs : List Request) → IsUploaded rs → IsAsked rs → ⊥
IsUploaded-IsAsked [] u a = u
IsUploaded-IsAsked (prepare pin files ∷ rs) u a = u
IsUploaded-IsAsked (cancelling session_id ∷ rs) u a = u
IsUploaded-IsAsked (upload r session_id file_id token local_path size ∷ rs) u a = a

IsAt-IsUploaded : (s : Sender) → IsAt s → IsUploaded s.requests
IsAt-IsUploaded s i = subst IsUploaded (sym i.posted.1) tt

module _ (q : Platform) (e : Env) where
  -- The handlers of an aborted reply.
  aborted_rests :
      (id : ℕ) (s t : Sender)
      → s.cancelled ≡ true
      → IsIn resting s
      → IsIn resting (if s.cancelled then clear_reply id s else t)
  unfolding clear_reply
  aborted_rests id s t gone (busy, reply, closed, orderly) =
      when_on (IsIn resting) s.cancelled _ _ gone
        (busy, ap (λ o. cleared o id) reply, closed, orderly)

  prepare_reply-lands :
      (id : ℕ) (r : Reply) (now : ℕ) (m : Mode) (s : Sender)
      → IsIn m s
      → IsExpected (prepare_replies id r) s
      → IsLanded q e (on_prepare_finished q e id r now s)
  unfolding on_prepare_finished
  prepare_reply-lands id r now resting s k (inl gone) = (resting, aborted_rests id s _ gone k)
  prepare_reply-lands id r now resting s (busy, reply, _, _) (inr (awaited, _)) = absurd (cc)
  prepare_reply-lands id r now asking s (busy, runs, _, _, _, _) (inl gone) = absurd (cc)
  prepare_reply-lands id r now asking s k (inr (awaited, _)) =
      on_prepare_finished-lands q e id r now s k awaited
  prepare_reply-lands id r now uploading s (busy, runs, _, _, _) (inl gone) = absurd (cc)
  prepare_reply-lands id r now uploading s (_, _, _, i, _) (inr (_, asked)) =
      absurd (IsUploaded-IsAsked s.requests (IsAt-IsUploaded s i) asked)

  upload_reply-lands :
      (id : ℕ) (r : Reply) (now : ℕ) (m : Mode) (s : Sender)
      → IsIn m s
      → IsExpected (upload_replies id r) s
      → IsLanded q e (on_upload_finished q e id r now s)
  unfolding on_upload_finished
  upload_reply-lands id r now resting s k (inl gone) = (resting, aborted_rests id s _ gone k)
  upload_reply-lands id r now resting s (busy, reply, _, _) (inr (awaited, _)) = absurd (cc)
  upload_reply-lands id r now asking s (busy, runs, _, _, _, _) (inl gone) = absurd (cc)
  upload_reply-lands id r now asking s (_, _, _, _, asked, _) (inr (_, uploaded)) =
      absurd (IsUploaded-IsAsked s.requests uploaded asked)
  upload_reply-lands id r now uploading s (busy, runs, _, _, _) (inl gone) = absurd (cc)
  upload_reply-lands id r now uploading s k (inr (awaited, _)) =
      on_upload_finished-lands q e id r now s k awaited

  grown-IsAt :
      (sent : ℤ) (s : Sender) (i : IsAt s) → IsAt (on_upload_progress (length i.before) sent s)
  grown-IsAt sent s i =
      let (t, split) = progress-middle i.before i.file i.after sent s.transfer i.split in
      record {
        before = i.before;
        file = record i.file { transferred = t };
        after = i.after;
        split = split;
        over = i.over;
        ready = i.ready;
        row = i.row;
        posted = i.posted;
      }

  progress-lands :
      (row : ℕ) (sent : ℤ) (m : Mode) (s : Sender)
      → IsIn m s
      → IsExpected (progresses row sent) s
      → IsLanded q e (on_upload_progress row sent s)
  progress-lands row sent resting s k x = (resting, k)
  progress-lands row sent asking s (_, _, _, _, asked, _) (uploaded, _) =
      absurd (IsUploaded-IsAsked s.requests uploaded asked)
  progress-lands row sent uploading s (busy, runs, session, i, orderly) (_, at_row) =
      subst (λ n. IsLanded q e (on_upload_progress n sent s))
        (some-injective _ _ (sym i.row ∙ at_row))
        (uploading, (busy, runs, session, grown-IsAt sent s i, orderly))

  -- In no other mode is a transfer begun or a PIN sent.
  cancel-lands : (now : ℕ) (m : Mode) (s : Sender) → IsIn m s → IsLanded q e (cancel q e now s)
  unfolding cancel
  cancel-lands now resting s (idle, reply, closed, orderly) =
      when_on (IsLanded q e) (not s.busy) _ _ (ap not idle)
        (resting, (idle, reply, closed, orderly))
  cancel-lands now asking s (busy, _, _, _, _, orderly) =
      (resting, cancel-rests q e now s busy orderly)
  cancel-lands now uploading s (busy, _, _, _, orderly) =
      (resting, cancel-rests q e now s busy orderly)

  busy-stays :
      (d : Device) (paths : List Text) (now : ℕ) (m : Mode) (s : Sender)
      → IsIn m s
      → s.busy ≡ true
      → IsLanded q e (send_files q e d paths now s)
  unfolding send_files
  busy-stays d paths now m s k busy = when_on (IsLanded q e) s.busy _ _ busy (m, k)

  pin-lands :
      (pin : Text) (now : ℕ) (m : Mode) (s : Sender)
      → IsIn m s
      → IsExpected (submits pin) s
      → IsLanded q e (submit_pin pin now s)
  unfolding submit_pin
  pin-lands pin now resting s (idle, reply, closed, orderly) x =
      when_on (IsLanded q e) (not s.busy || is_empty pin) _ _ (ap (λ b. not b || is_empty pin) idle)
        (resting, (idle, reply, closed, orderly))
  pin-lands pin now asking s k x = submit_pin-lands q e pin now s k
  pin-lands pin now uploading s (busy, _, _, i, _) x =
      absurd (IsUploaded-IsAsked s.requests (IsAt-IsUploaded s i) (x busy))

  step-lands :
      (now : ℕ) (v : Event) (m : Mode) (s : Sender)
      → IsIn m s
      → IsExpected v s
      → IsLanded q e (step q e now v s)
  step-lands now (sends d paths) resting s k x = send_files-lands q e d paths now s k
  step-lands now (sends d paths) asking s k x = busy-stays d paths now asking s k k.0
  step-lands now (sends d paths) uploading s k x = busy-stays d paths now uploading s k k.0
  step-lands now (submits pin) m s k x = pin-lands pin now m s k x
  step-lands now (prepare_replies id r) m s k x = prepare_reply-lands id r now m s k x
  step-lands now (upload_replies id r) m s k x = upload_reply-lands id r now m s k x
  step-lands now (progresses row sent) m s k x = progress-lands row sent m s k x
  step-lands now cancels m s k x = cancel-lands now m s k

  -- From rest, whatever comes as it is expected, the service is in one of its three modes. At rest
  -- no reply is awaited and no file is open; while the peer is asked no file is under way; while
  -- files go out, the last request carries the file of the current row, the rows before it are over,
  -- and those behind it that wait have a token.
  pub modes_hold : (s t : Sender) → IsIn resting s → IsReached q e s t → (m : Mode) × IsIn m t
  modes_hold s t k IsReached.start = (resting, k)
  modes_hold s t k (IsReached.next now v u reached expected) =
      let (m, l) = modes_hold s u k reached in step-lands now v m u l expected

  in_mode : (m : Mode) (s : Sender) → IsIn m s → IsOrderly s.requests
  in_mode resting s (_, _, _, orderly) = orderly
  in_mode asking s (_, _, _, _, _, orderly) = orderly
  in_mode uploading s (_, _, _, _, orderly) = orderly

  -- From rest, whatever comes as it is expected, every upload that was posted names a session and a
  -- token, and the rows of the uploads that follow one request go strictly up.
  pub requests_in_order : (s t : Sender) → IsIn resting s → IsReached q e s t → IsOrderly t.requests
  requests_in_order s t k reached = let (m, l) = modes_hold s t k reached in in_mode m t l
