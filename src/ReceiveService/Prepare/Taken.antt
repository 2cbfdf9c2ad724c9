-- ===== src/ReceiveService/Prepare/Taken.antt =====
-- src/receiveservice.cpp, handlePrepareUpload: the rows of a request that is taken up.
use harbour_localsend.Common.{
  ℕ, ◌≡◌, true, false, not, ◌||◌, [], Option, none, some, length, is_empty, ltb,
}
use harbour_localsend.Platform.{Platform}
use harbour_localsend.RateLimiter.{allow, record_failure, record_success}
use harbour_localsend.AppSettings.{check_pin}
use harbour_localsend.DeviceInfo.{Payload}
use harbour_localsend.TransferModel.{pending, begin}
use harbour_localsend.TransferModel.Files.{set_state-files}
use harbour_localsend.ReceiveService.State.{Service, Env, respond, is_some}
use harbour_localsend.ReceiveService.Prepare.{
  PrepareRequest, peer_of, certificate_matches, blocks, max_files_per_session, read_entries, admit,
  prepare_peer, prepare_body, prepare_upload,
}
use harbour_localsend.ReceiveService.Prepare.Admitted.{is_busy, respond-is_busy}
use harbour_localsend.ReceiveService.Machine.Frame.{pick, pick_false}

module _ (q : Platform) (e : Env) (r : PrepareRequest) where
  -- If the service holds the request, its files have become the rows.
  abbrev pub TakesRows : Service → Type 0
  TakesRows t = is_busy t ≡ true → t.transfer.files ≡ read_entries q e r.files

  refusing : (status : ℕ) (s : Service) → is_busy s ≡ false → TakesRows (respond r.conn status s)
  refusing status s free busy = absurd (cc (respond-is_busy r.conn status s, free, busy))

  admit-TakesRows :
      (info : Payload) (now : ℕ) (s : Service)
      → s.settings.quick_save ≡ false
      → TakesRows (admit q e info r now s)
  unfolding admit begin
  admit-TakesRows info now s asks =
      pick_false TakesRows s.settings.quick_save _ _ asks (λ busy. set_state-files pending [] now _)

  prepare_peer-TakesRows :
      (info : Payload) (now : ℕ) (s : Service)
      → s.settings.quick_save ≡ false
      → is_busy s ≡ false
      → TakesRows (prepare_peer q e info r now s)
  unfolding prepare_peer
  prepare_peer-TakesRows info now s asks free =
      let peer = peer_of q e info r.peer_address in
      pick TakesRows (not (certificate_matches q e r.certificate peer.fingerprint)) _ _
        (refusing 403 s free)
        (pick TakesRows (blocks q e s.known peer.fingerprint) _ _ (refusing 403 s free)
          (admit-TakesRows info now s asks))

  prepare_body-TakesRows :
      (o : Option Payload) (now : ℕ) (s : Service)
      → s.settings.quick_save ≡ false
      → is_busy s ≡ false
      → TakesRows (prepare_body q e o r now s)
  unfolding prepare_body
  prepare_body-TakesRows none now s asks free = refusing 400 s free
  prepare_body-TakesRows (some info) now s asks free =
      pick TakesRows (is_empty r.files) _ _ (refusing 204 s free) (
        pick TakesRows (ltb max_files_per_session (length r.files)) _ _ (refusing 400 s free)
          (prepare_peer-TakesRows info now s asks free))

  pub prepare_upload-TakesRows :
      (now : ℕ) (s : Service)
      → s.settings.quick_save ≡ false
      → is_busy s ≡ false
      → TakesRows (prepare_upload q e r now s)
  unfolding prepare_upload
  prepare_upload-TakesRows now s asks free =
      pick TakesRows (not s.settings.receive_enabled) _ _ (refusing 403 s free) (
        pick TakesRows (is_some s.pending || not (is_empty s.session_id)) _ _ (refusing 409 s free)
          (pick TakesRows (not (allow s.pin_attempts r.peer_address now)) _ _ (refusing 429 s free)
            (pick TakesRows (not (check_pin q s.settings r.pin)) _ _
              (refusing 401
                (record s { pin_attempts = record_failure s.pin_attempts r.peer_address now }) free)
              (prepare_body-TakesRows r.info now
                (record s { pin_attempts = record_success s.pin_attempts r.peer_address }) asks
                free))))
