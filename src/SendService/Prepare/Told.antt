-- ===== src/SendService/Prepare/Told.antt =====
-- src/sendservice.cpp: from the request to the first file, every answer of the peer.
use harbour_localsend.Common.{
  ℕ, suc, ◌≡◌, refl, sym, ap, ◌∙◌, inl, inr, Bool, false, not, ◌&&◌, ◌||◌, List, [], ◌∷◌, Option,
  none, some, is_empty, All, if◌then◌else◌, Bool-cases, Text, subst, ◌==◌,
}
use harbour_localsend.Platform.{Platform}
use harbour_localsend.TransferModel.{
  TransferModel, FileEntry, active, requesting, idle, begin, set_state,
}
use harbour_localsend.TransferModel.Files.{set_state-files}
use harbour_localsend.SendService.State.{
  Sender, Env, Request, prepare, upload, cancelling, clear_reply, cleared, close_current_file,
}
use harbour_localsend.DeviceInfo.{DeviceInfo}
use harbour_localsend.SendService.End.{fail_transfer}
use harbour_localsend.SendService.Upload.{Reply}
use harbour_localsend.SendService.Prepare.{
  Device, give_tokens, unreadable, peer_of, read_entries, local_path_of, begin_sending,
  send_entries, send_files, hides, request_upload, submit_pin, take_tokens, count_accepted,
  read_answer, prepare_answered, on_prepare_finished,
}
use harbour_localsend.SendService.Machine.Modes.{resting, asking, IsAbove, IsAsked, IsIdle, IsIn}
use harbour_localsend.SendService.Machine.Files.{give_tokens-IsReady}
use harbour_localsend.SendService.Machine.Ends.{either, when_off, fail_transfer-rests}
use harbour_localsend.SendService.Machine.Between.{cleared_own}
use harbour_localsend.SendService.Machine.Uploads.{IsLanded, start_next_file-lands}

IsAsked-IsAbove : (rs : List Request) → IsAsked rs → IsAbove 0 rs
IsAsked-IsAbove [] k = absurd k
IsAsked-IsAbove (prepare pin files ∷ rs) k = tt
IsAsked-IsAbove (cancelling session_id ∷ rs) k = absurd k
IsAsked-IsAbove (upload r session_id file_id token local_path size ∷ rs) k = absurd k

module _ (q : Platform) (e : Env) where
  read_entries-IsIdle : (i n : ℕ) (paths : List Text) → All IsIdle (read_entries q e i n paths)
  unfolding read_entries
  read_entries-IsIdle i n [] = tt
  read_entries-IsIdle i n (p ∷ paths) = elim (Bool-cases (e.is_readable (local_path_of q e p))) [
    | inl there ↦ rw (there, All) (refl, read_entries-IsIdle (suc i) (suc n) paths)
    | inr missing ↦ rw (missing, All) (read_entries-IsIdle (suc i) n paths)
  ]

  -- The peer named a session: its tokens are handed out, and the first file goes.
  take_tokens-lands :
      (tokens : List (Text × Text)) (now : ℕ) (s : Sender)
      → IsIn asking s
      → s.reply ≡ none
      → is_empty s.session_id ≡ false
      → IsLanded q e (take_tokens q e tokens now s)
  unfolding take_tokens close_current_file
  take_tokens-lands tokens now s (busy, runs, closed, idles, asked, orderly) reply session =
      either (IsLanded q e) (count_accepted tokens s.transfer.files == 0) _ _
        (resting, (refl, reply, closed, orderly))
        (start_next_file-lands q e now [] handed.files
          (record s { transfer = set_state active [] now handed; current_row = none })
          (record {
            split = set_state-files active [] now handed;
            over = tt;
            ready = give_tokens-IsReady tokens now s.transfer idles;
            busy = busy;
            runs = runs;
            session = session;
            replied = reply;
            closed = refl;
            above = IsAsked-IsAbove s.requests asked;
            orderly = orderly;
          })
          refl)
    where
      handed : TransferModel
      handed = give_tokens tokens now 0 s.transfer.files s.transfer

  read_answer-lands :
      (o : Option (Text × List (Text × Text))) (now : ℕ) (s : Sender)
      → IsIn asking s
      → s.reply ≡ none
      → IsLanded q e (read_answer q e o now s)
  read_answer-lands none now s (busy, runs, closed, idles, asked, orderly) reply =
      (resting, fail_transfer-rests q e _ now s reply orderly)
  read_answer-lands (some (session_id, tokens)) now s k reply =
      elim (Bool-cases (is_empty session_id)) [
        | inl nameless ↦ subst Goal (sym nameless) failing
        | inr named ↦ subst Goal (sym named) (
            either (IsLanded q e) (is_empty tokens) _ _ failing
              (take_tokens-lands tokens now opened k reply named))
      ]
    where
      opened : Sender
      opened = record s { session_id = session_id }

      failing : IsLanded q e (unreadable q e now opened)
      failing =
          let (busy, runs, closed, idles, asked, orderly) = k in
          (resting, fail_transfer-rests q e _ now opened reply orderly)

      Goal : Bool → Type 0
      Goal b = IsLanded q e (
          if b || is_empty tokens
          then unreadable q e now opened
          else take_tokens q e tokens now opened)

  prepare_answered-lands :
      (r : Reply) (now : ℕ) (s : Sender)
      → IsIn asking s
      → s.reply ≡ none
      → IsLanded q e (prepare_answered q e r now s)
  unfolding prepare_answered
  prepare_answered-lands r now s k reply =
      let (busy, runs, closed, idles, asked, orderly) = k in
      let fails : (message : Text) → IsLanded q e (fail_transfer q e message now s) =
        λ message. (resting, fail_transfer-rests q e message now s reply orderly) in
      either (IsLanded q e) (r.has_error && r.status == 0) _ _ (fails _) (
        either (IsLanded q e) (r.status == 200) _ _ (read_answer-lands r.body now s k reply) (
          either (IsLanded q e) (r.status == 204) _ _ (resting, (refl, reply, closed, orderly))
            (either (IsLanded q e) (r.status == 401) _ _
              (
                asking,
                (
                  busy,
                  runs,
                  closed,
                  subst (All IsIdle) (sym (set_state-files idle [] now s.transfer)) idles,
                  asked,
                  orderly,
                ),
              )
              (either (IsLanded q e) (r.status == 403) _ _ (resting, (refl, reply, closed, orderly))
                (either (IsLanded q e) (r.status == 409) _ _ (fails _)
                  (either (IsLanded q e) (r.status == 429) _ _ (fails _) (fails _)))))))

  pub on_prepare_finished-lands :
      (id : ℕ) (r : Reply) (now : ℕ) (s : Sender)
      → IsIn asking s
      → s.reply ≡ some id
      → IsLanded q e (on_prepare_finished q e id r now s)
  unfolding on_prepare_finished clear_reply
  on_prepare_finished-lands id r now s (busy, runs, closed, idles, asked, orderly) reply =
      when_off (IsLanded q e) s.cancelled _ _ runs (
        prepare_answered-lands r now (clear_reply id s) (busy, runs, closed, idles, asked, orderly)
          (ap (λ o. cleared o id) reply ∙ cleared_own id))

  pub submit_pin-lands :
      (pin : Text) (now : ℕ) (s : Sender) → IsIn asking s → IsLanded q e (submit_pin pin now s)
  unfolding submit_pin request_upload
  submit_pin-lands pin now s k =
      let (busy, runs, closed, idles, asked, orderly) = k in
      either (IsLanded q e) (not s.busy || is_empty pin) _ _ (asking, k)
        (
          asking,
          (
            busy,
            runs,
            closed,
            subst (All IsIdle) (sym (set_state-files requesting [] now s.transfer)) idles,
            tt,
            orderly,
          ),
        )

  send_entries-lands :
      (peer : DeviceInfo) (fs : List FileEntry) (now : ℕ) (s : Sender)
      → All IsIdle fs
      → IsIn resting s
      → IsLanded q e (send_entries q e peer fs now s)
  unfolding request_upload begin
  send_entries-lands peer [] now s idles k = (resting, k)
  send_entries-lands peer (f ∷ fs) now s idles (busy, reply, closed, orderly) = (
    asking,
    (
      refl,
      refl,
      closed,
      subst (All IsIdle)
          (sym (set_state-files requesting [] now (begin_sending q e peer (f ∷ fs) now s.transfer)))
          idles,
      tt,
      orderly,
    ),
  )

  pub send_files-lands :
      (d : Device) (paths : List Text) (now : ℕ) (s : Sender)
      → IsIn resting s
      → IsLanded q e (send_files q e d paths now s)
  unfolding send_files
  send_files-lands d paths now s k =
      let P = IsLanded q e in
      either P s.busy _ _ (resting, k)
        (either P (is_empty (peer_of d).address || is_empty paths) _ _ (resting, k)
          (either P (hides q e s.known (peer_of d).fingerprint) _ _ (resting, k)
            (send_entries-lands (peer_of d) (read_entries q e 0 s.drawn paths) now s
              (read_entries-IsIdle 0 s.drawn paths) k)))
