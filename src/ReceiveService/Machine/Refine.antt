-- ===== src/ReceiveService/Machine/Refine.antt =====
-- src/receiveservice.cpp against the diagram: every event moves the service along it.
use harbour_localsend.Common.{
  ℕ, ◌≡◌, refl, true, false, not, ◌||◌, Option, none, some, length, is_empty, ltb,
}
use harbour_localsend.Platform.{Platform}
use harbour_localsend.AppSettings.{check_pin}
use harbour_localsend.DeviceInfo.{Payload}
use harbour_localsend.RateLimiter.{allow, record_failure, record_success}
use harbour_localsend.ReceiveService.State.{Service, Env, respond, is_some}
use harbour_localsend.ReceiveService.Prepare.{
  PrepareRequest, prepare_upload, prepare_body, prepare_peer, admit, peer_of, certificate_matches,
  blocks, max_files_per_session,
}
use harbour_localsend.ReceiveService.Machine.{
  Event, prepares, accepts, declines, times_out, cancels, idles, stops, pending_closes,
  sender_cancels, starts_upload, brings, ends_upload, upload_closes, step,
}
use harbour_localsend.ReceiveService.Machine.Diagram.{Mode, idle, waiting, receiving, Move, IsIn}
use harbour_localsend.ReceiveService.Machine.Frame.{pick, pick_true, pick_false}
use harbour_localsend.ReceiveService.Machine.Answer.{
  Follows, answered, accept-Follows, decline-Follows, time_out-Follows,
}
use harbour_localsend.ReceiveService.Machine.Moves.{
  finished-Follows, closed-Follows, brings-IsIn, starts-IsIn, pending_closed-Follows,
  sender_cancels-Follows, cancels-Follows, idles-Follows, stops-Follows,
}

module _ (q : Platform) (e : Env) (has_tokens : (n : ℕ) → is_empty (e.random n) ≡ false) where
  refusing :
      (r : PrepareRequest) (status : ℕ) (m : Mode) (s : Service)
      → IsIn m s
      → Follows (prepares r) m (respond r.conn status s)
  refusing r status m s k = (m, Move.stays, answered m r.conn _ s k)

  -- What accepting at once makes of a request from the idle mode.
  as_asked :
      (r : PrepareRequest) (t : Service) → Follows accepts waiting t → Follows (prepares r) idle t
  as_asked r t (n, Move.grants, k) = (n, Move.asks_quickly, k)
  as_asked r t (n, Move.grants_nothing, k) = (n, Move.stays, k)
  as_asked r t (n, Move.stays, k) = (n, Move.asks, k)

  admit-Follows :
      (info : Payload) (r : PrepareRequest) (now : ℕ) (s : Service)
      → IsIn idle s
      → Follows (prepares r) idle (admit q e info r now s)
  unfolding admit
  admit-Follows info r now s (a, b, c, d) =
      pick (Follows (prepares r) idle) s.settings.quick_save _ _
        (as_asked r _ (accept-Follows q e has_tokens now waiting _ (a, b, c, refl)))
        (waiting, Move.asks, (a, b, c, refl))

  prepare_body-Follows :
      (o : Option Payload) (r : PrepareRequest) (now : ℕ) (s : Service)
      → IsIn idle s
      → Follows (prepares r) idle (prepare_body q e o r now s)
  unfolding prepare_body prepare_peer
  prepare_body-Follows none r now s k = refusing r 400 idle s k
  prepare_body-Follows (some info) r now s k =
      let P = Follows (prepares r) idle in
      pick P (is_empty r.files) _ _ (refusing r 204 idle s k) (
        pick P (ltb max_files_per_session (length r.files)) _ _ (refusing r 400 idle s k) (
          pick P
            (not
              (certificate_matches q e r.certificate (peer_of q e info r.peer_address).fingerprint))
            _ _ (refusing r 403 idle s k)
            (pick P (blocks q e s.known (peer_of q e info r.peer_address).fingerprint) _ _
              (refusing r 403 idle s k) (admit-Follows info r now s k))))

  -- While something waits or runs, every request is refused.
  busy-Follows :
      (r : PrepareRequest) (now : ℕ) (m : Mode) (s : Service)
      → (is_some s.pending || not (is_empty s.session_id)) ≡ true
      → IsIn m s
      → Follows (prepares r) m (prepare_upload q e r now s)
  unfolding prepare_upload
  busy-Follows r now m s b k =
      pick (Follows (prepares r) m) (not s.settings.receive_enabled) _ _ (refusing r 403 m s k) (
        pick_true (Follows (prepares r) m) (is_some s.pending || not (is_empty s.session_id)) _ _ b
          (refusing r 409 m s k))

  prepare_upload-Follows :
      (r : PrepareRequest) (now : ℕ) (m : Mode) (s : Service)
      → IsIn m s
      → Follows (prepares r) m (prepare_upload q e r now s)
  unfolding prepare_upload
  prepare_upload-Follows r now idle s k =
      let P = Follows (prepares r) idle in
      pick P (not s.settings.receive_enabled) _ _ (refusing r 403 idle s k) (
        pick_false P (is_some s.pending || not (is_empty s.session_id)) _ _ (rw (k.0, k.3) refl) (
          pick P (not (allow s.pin_attempts r.peer_address now)) _ _ (refusing r 429 idle s k) (
            pick P (not (check_pin q s.settings r.pin)) _ _
              (refusing r 401 idle
                (record s { pin_attempts = record_failure s.pin_attempts r.peer_address now }) k)
              (prepare_body-Follows r.info r now
                (record s { pin_attempts = record_success s.pin_attempts r.peer_address }) k))))
  prepare_upload-Follows r now waiting s k = busy-Follows r now waiting s (rw k.3 refl) k
  prepare_upload-Follows r now receiving s k = busy-Follows r now receiving s (rw (k.0, k.1) refl) k

  -- With random tokens that are not empty, the service follows the diagram: in each mode, every event
  -- ends in a mode to which the diagram has a move under that event, and there the service has what
  -- that mode says of its request, session, tokens and uploads.
  pub step-Follows :
      (now : ℕ) (event : Event) (m : Mode) (s : Service)
      → IsIn m s
      → Follows event m (step q e now event s)
  step-Follows now (prepares r) m s k = prepare_upload-Follows r now m s k
  step-Follows now accepts m s k = accept-Follows q e has_tokens now m s k
  step-Follows now declines m s k = decline-Follows q e has_tokens now m s k
  step-Follows now times_out m s k = time_out-Follows q e has_tokens now m s k
  step-Follows now cancels m s k = cancels-Follows q e has_tokens now m s k
  step-Follows now idles m s k = idles-Follows q e has_tokens now m s k
  step-Follows now stops m s k = stops-Follows q e has_tokens now m s k
  step-Follows now (pending_closes conn) m s k =
      pending_closed-Follows q e has_tokens conn now m s k
  step-Follows now (sender_cancels conn t) m s k =
      sender_cancels-Follows q e has_tokens conn t now m s k
  step-Follows now (starts_upload r) m s k = (m, Move.stays, starts-IsIn q e has_tokens r now m s k)
  step-Follows now (brings conn block writes) m s k =
      (m, Move.stays, brings-IsIn q e has_tokens conn block writes m s k)
  step-Follows now (ends_upload conn) m s k = finished-Follows q e has_tokens conn now m s k
  step-Follows now (upload_closes conn) m s k = closed-Follows q e has_tokens conn now m s k
