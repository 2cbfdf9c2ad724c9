-- ===== src/ReceiveService/Machine/Moves.antt =====
-- src/receiveservice.cpp against the diagram: uploads, and the ways in which a request or a session
-- ends.
use harbour_localsend.Common.{
  ℕ, ◌≡◌, refl, sym, ap, ◌⊎◌, inl, inr, Bool, false, not, ◌&&◌, ◌||◌, [], Option, none, some,
  is_empty, Text, text_eq, find, subst,
}
use harbour_localsend.Platform.{Platform}
use harbour_localsend.Crypto.{equals}
use harbour_localsend.TransferModel.{index_of_file}
use harbour_localsend.ReceiveService.State.{
  has_answered, plain, Service, Upload, Env, respond, find_upload, is_some,
}
use harbour_localsend.ReceiveService.Finish.{
  Ending, ended_cancelled, ended_failed, release_pending, on_session_idle, stop_listening,
  is_settled,
}
use harbour_localsend.ReceiveService.Prepare.{
  on_pending_closed, handle_cancel, cancel, is_pending_conn,
}
use harbour_localsend.ReceiveService.Upload.{
  UploadRequest, handle_upload_headers, deliver, deliver_to, handle_upload_finished,
  on_upload_closed, finish_upload, close_upload, finish_if_settled, settle_upload, drop_upload,
  value_or_empty, upload_row,
}
use harbour_localsend.ReceiveService.Machine.{
  Event, declines, cancels, idles, stops, pending_closes, sender_cancels, ends_upload,
  upload_closes,
}
use harbour_localsend.ReceiveService.Machine.Diagram.{Mode, idle, waiting, receiving, Move, IsIn}
use harbour_localsend.ReceiveService.Machine.Frame.{
  pick, pick_true, pick_false, upload_row-IsHeld, deliver-IsHeld, settle_upload-IsHeld,
}
use harbour_localsend.ReceiveService.Machine.Answer.{
  Follows, held_in, answered, finish_session-idle, decline-Follows,
}

-- No upload is found where there is none.
no_upload :
    (f : Option Upload → Service → Service) (conn : ℕ) (m : Mode) (s : Service)
    → s.uploads ≡ []
    → IsIn m (f none s)
    → IsIn m (f (find_upload conn s.uploads) s)
no_upload f conn m s c k = subst (λ us. IsIn m (f (find_upload conn us) s)) (sym c) k

module _ (q : Platform) (e : Env) (has_tokens : (n : ℕ) → is_empty (e.random n) ≡ false) where
  -- Either the session goes on or it has ended.
  abbrev IsOnOrOver : Service → Type 0
  IsOnOrOver t = IsIn receiving t ⊎ IsIn idle t

  finish_if_settled-IsOnOrOver :
      (ending : Ending) (now : ℕ) (s : Service)
      → IsIn receiving s
      → IsOnOrOver (finish_if_settled q e ending now s)
  unfolding finish_if_settled
  finish_if_settled-IsOnOrOver ending now s k =
      pick IsOnOrOver (is_settled s.transfer) _ s
        (inr (finish_session-idle q ending now receiving s k)) (inl k)

  finish_upload-IsOnOrOver :
      (conn : ℕ) (o : Option Upload) (now : ℕ) (s : Service)
      → IsIn receiving s
      → IsOnOrOver (finish_upload q e conn o now s)
  finish_upload-IsOnOrOver conn none now s k = inl (answered receiving conn _ s k)
  finish_upload-IsOnOrOver conn (some u) now s k = finish_if_settled-IsOnOrOver _ now _ (
      held_in (drop_upload conn s) (settle_upload q e conn u now (drop_upload conn s)) k
        (settle_upload-IsHeld q e conn u now (drop_upload conn s)))

  close_upload-IsOnOrOver :
      (conn : ℕ) (o : Option Upload) (now : ℕ) (s : Service)
      → IsIn receiving s
      → IsOnOrOver (close_upload q e conn o now s)
  close_upload-IsOnOrOver conn none now s k = inl k
  close_upload-IsOnOrOver conn (some u) now s k = finish_if_settled-IsOnOrOver _ now _ k

  follows :
      (event : Event) (t : Service)
      → Move event receiving idle
      → IsOnOrOver t
      → Follows event receiving t
  follows event t over (inl k) = (receiving, Move.stays, k)
  follows event t over (inr k) = (idle, over, k)

  pub finished-Follows :
      (conn now : ℕ) (m : Mode) (s : Service)
      → IsIn m s
      → Follows (ends_upload conn) m (handle_upload_finished q e conn now s)
  unfolding handle_upload_finished
  finished-Follows conn now idle s k = (
    idle,
    Move.stays,
    no_upload (λ o x. finish_upload q e conn o now x) conn idle s k.2 (answered idle conn _ s k),
  )
  finished-Follows conn now waiting s k = (
    waiting,
    Move.stays,
    no_upload (λ o x. finish_upload q e conn o now x) conn waiting s k.2
        (answered waiting conn _ s k),
  )
  finished-Follows conn now receiving s k =
      follows _ _ Move.completes
        (finish_upload-IsOnOrOver conn (find_upload conn s.uploads) now s k)

  pub closed-Follows :
      (conn now : ℕ) (m : Mode) (s : Service)
      → IsIn m s
      → Follows (upload_closes conn) m (on_upload_closed q e conn now s)
  unfolding on_upload_closed
  closed-Follows conn now idle s k =
      (idle, Move.stays, no_upload (λ o x. close_upload q e conn o now x) conn idle s k.2 k)
  closed-Follows conn now waiting s k =
      (waiting, Move.stays, no_upload (λ o x. close_upload q e conn o now x) conn waiting s k.2 k)
  closed-Follows conn now receiving s k =
      follows _ _ Move.loses (close_upload-IsOnOrOver conn (find_upload conn s.uploads) now s k)

  -- A block finds no upload outside a session.
  pub brings-IsIn :
      (conn : ℕ) (block : Text) (writes : Bool) (m : Mode) (s : Service)
      → IsIn m s
      → IsIn m (deliver conn block writes s)
  unfolding deliver
  brings-IsIn conn block writes idle s k =
      pick (IsIn idle) (has_answered conn s.answers) s _ k
        (no_upload (deliver_to conn block writes) conn idle s k.2 k)
  brings-IsIn conn block writes waiting s k =
      pick (IsIn waiting) (has_answered conn s.answers) s _ k
        (no_upload (deliver_to conn block writes) conn waiting s k.2 k)
  brings-IsIn conn block writes receiving s k =
      held_in s (deliver conn block writes s) k (deliver-IsHeld q e conn block writes s)

  -- Outside a session an upload is refused for its session.
  no_session :
      (r : UploadRequest) (now : ℕ) (m : Mode) (s : Service)
      → s.session_id ≡ []
      → IsIn m s
      → IsIn m (handle_upload_headers q e r now s)
  unfolding handle_upload_headers
  no_session r now m s a k =
      pick (IsIn m) (is_empty r.session_id || is_empty r.file_id || is_empty r.token) _ _
        (answered m r.conn _ s k)
        (pick_true (IsIn m) (is_empty s.session_id || not (text_eq r.session_id s.session_id)) _ _
          (ap (λ t. is_empty t || not (text_eq r.session_id t)) a) (answered m r.conn _ s k))

  pub starts-IsIn :
      (r : UploadRequest) (now : ℕ) (m : Mode) (s : Service)
      → IsIn m s
      → IsIn m (handle_upload_headers q e r now s)
  unfolding handle_upload_headers
  starts-IsIn r now idle s k = no_session r now idle s k.0 k
  starts-IsIn r now waiting s k = no_session r now waiting s k.0 k
  starts-IsIn r now receiving s k =
      let refused = λ (n : ℕ). answered receiving r.conn (plain n) s k in
      pick (IsIn receiving) (is_empty r.session_id || is_empty r.file_id || is_empty r.token) _ _
        (refused 400)
        (pick (IsIn receiving) (is_empty s.session_id || not (text_eq r.session_id s.session_id)) _
          _ (refused 409)
          (pick (IsIn receiving)
            (not (equals q (value_or_empty (find r.file_id s.tokens)) r.token)
              || not (text_eq r.peer_address s.session_address))
            _ _ (refused 403)
            (held_in s (upload_row q e r (index_of_file s.transfer r.file_id) now s) k
              (upload_row-IsHeld q e r (index_of_file s.transfer r.file_id) now s))))

  pub pending_closed-Follows :
      (conn now : ℕ) (m : Mode) (s : Service)
      → IsIn m s
      → Follows (pending_closes conn) m (on_pending_closed q e conn now s)
  unfolding on_pending_closed
  pending_closed-Follows conn now idle s k = (
    idle,
    Move.stays,
    pick_true (IsIn idle) (not (is_pending_conn q e conn s.pending)) s _
        (ap (λ o. not (is_pending_conn q e conn o)) k.3) k,
  )
  pending_closed-Follows conn now receiving s k = (
    receiving,
    Move.stays,
    pick_true (IsIn receiving) (not (is_pending_conn q e conn s.pending)) s _
        (ap (λ o. not (is_pending_conn q e conn o)) k.1) k,
  )
  pending_closed-Follows conn now waiting s k =
      pick (Follows (pending_closes conn) waiting) (not (is_pending_conn q e conn s.pending)) s _
        (waiting, Move.stays, k) (let (a, b, c, d) = k in (idle, Move.leaves, (a, b, c, refl)))

  pub sender_cancels-Follows :
      (conn : ℕ) (session_id : Text) (now : ℕ) (m : Mode) (s : Service)
      → IsIn m s
      → Follows (sender_cancels conn session_id) m (handle_cancel q e conn session_id now s)
  unfolding handle_cancel release_pending
  sender_cancels-Follows conn session_id now idle s k =
      let told = answered idle conn (plain 200) s k in
      (
        idle,
        Move.stays,
        pick_false (IsIn idle) (is_some s.pending && is_empty s.session_id) _ _
            (ap (λ o. is_some o && is_empty s.session_id) k.3)
            (pick (IsIn idle)
              (not (is_empty s.session_id)
                && (is_empty session_id || text_eq session_id s.session_id))
              _ _ (finish_session-idle q ended_cancelled now idle (respond conn 200 s) told) told),
      )
  sender_cancels-Follows conn session_id now waiting s k =
      let (a, b, c, d) = answered waiting conn (plain 200) s k in
      (
        idle,
        Move.withdraws,
        pick_true (IsIn idle) (is_some s.pending && is_empty s.session_id) _ _ (rw (k.0, k.3) refl)
            (a, b, c, refl),
      )
  sender_cancels-Follows conn session_id now receiving s k =
      let told = answered receiving conn (plain 200) s k in
      follows _ _ Move.breaks_off (
        pick_false IsOnOrOver (is_some s.pending && is_empty s.session_id) _ _
          (ap (λ o. is_some o && is_empty s.session_id) k.1)
          (pick IsOnOrOver
            (not (is_empty s.session_id)
              && (is_empty session_id || text_eq session_id s.session_id))
            _ _
            (inr (finish_session-idle q ended_cancelled now receiving (respond conn 200 s) told))
            (inl told)))

  -- A refusal of the user counts as one by the button that cancels.
  as_cancel : (m : Mode) (t : Service) → Follows declines m t → Follows cancels m t
  as_cancel m t (n, Move.stays, k) = (n, Move.stays, k)
  as_cancel m t (n, Move.refuses, k) = (n, Move.dismisses, k)

  pub cancels-Follows :
      (now : ℕ) (m : Mode) (s : Service) → IsIn m s → Follows cancels m (cancel q e now s)
  unfolding cancel
  cancels-Follows now idle s k = (
    idle,
    Move.stays,
    pick_false (IsIn idle) (is_some s.pending && is_empty s.session_id) _ _
        (ap (λ o. is_some o && is_empty s.session_id) k.3)
        (pick_true (IsIn idle) (is_empty s.session_id) s _ (ap is_empty k.0) k),
  )
  cancels-Follows now waiting s k =
      pick_true (Follows cancels waiting) (is_some s.pending && is_empty s.session_id) _ _
        (rw (k.0, k.3) refl) (as_cancel waiting _ (decline-Follows q e has_tokens now waiting s k))
  cancels-Follows now receiving s k = follows _ _ Move.stops_short (
      pick_false IsOnOrOver (is_some s.pending && is_empty s.session_id) _ _
        (ap (λ o. is_some o && is_empty s.session_id) k.1)
        (pick_false IsOnOrOver (is_empty s.session_id) s _ k.0
          (inr (finish_session-idle q ended_cancelled now receiving s k))))

  pub idles-Follows :
      (now : ℕ) (m : Mode) (s : Service) → IsIn m s → Follows idles m (on_session_idle q now s)
  unfolding on_session_idle
  idles-Follows now idle s k =
      (idle, Move.stays, pick_true (IsIn idle) (is_empty s.session_id) s _ (ap is_empty k.0) k)
  idles-Follows now waiting s k = (
    waiting,
    Move.stays,
    pick_true (IsIn waiting) (is_empty s.session_id) s _ (ap is_empty k.0) k,
  )
  idles-Follows now receiving s k = (
    idle,
    Move.lapses,
    pick_false (IsIn idle) (is_empty s.session_id) s _ k.0
        (finish_session-idle q ended_failed now receiving s k),
  )

  pub stops-Follows :
      (now : ℕ) (m : Mode) (s : Service) → IsIn m s → Follows stops m (stop_listening q now s)
  unfolding stop_listening
  stops-Follows now m s k =
      pick (Follows stops m) (not s.listening) s _ (m, Move.stays, k)
        (idle, Move.shuts, finish_session-idle q ended_cancelled now m s k)
