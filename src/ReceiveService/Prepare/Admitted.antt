-- ===== src/ReceiveService/Prepare/Admitted.antt =====
-- src/receiveservice.cpp, handlePrepareUpload: which requests come before the user.
use harbour_localsend.Common.{
  ℕ, ◌≡◌, ◌≤◌, ◌<◌, refl, arith, Bool, true, false, not, ◌||◌, List, [], ◌∷◌, Option, none, some,
  is_empty, length, Text, Option-cases, inl, inr, ◌⊎◌,
}
use harbour_localsend.Platform.{Platform}
use harbour_localsend.Crypto.{equals_fold}
use harbour_localsend.AppSettings.{check_pin}
use harbour_localsend.DeviceInfo.{Payload, from_payload}
use harbour_localsend.KnownDevices.{KnownDevices, is_blocked}
use harbour_localsend.RateLimiter.{allow, record_failure, record_success}
use harbour_localsend.ReceiveService.State.{Service, Env, answer, respond, is_some}
use harbour_localsend.ReceiveService.Prepare.{
  PrepareRequest, max_files_per_session, certificate_matches, blocks, prepare_peer, prepare_body,
  prepare_upload,
}

-- A request that waits for the user, or a session that runs.
abbrev pub is_busy : Service → Bool
is_busy s = is_some s.pending || not (is_empty s.session_id)

pub respond-is_busy : (conn status : ℕ) (s : Service) → is_busy (respond conn status s) ≡ is_busy s
unfolding answer
respond-is_busy conn status s = ground arith

-- The key that the sender claims is the one it shook hands with, if it showed one.
abbrev pub ClaimsOwnKey : Platform → PrepareRequest → Text → Type 0
ClaimsOwnKey q r fingerprint =
    (r.certificate ≡ none)
    ⊎ ((observed : Text) × (r.certificate ≡ some observed)
        × (equals_fold q observed fingerprint ≡ true))

abbrev pub NotBlocked : Platform → Option KnownDevices → Text → Type 0
NotBlocked q known fingerprint =
    (known ≡ none) ⊎ ((k : KnownDevices) × (known ≡ some k) × (is_blocked q k fingerprint ≡ false))

-- What holds of a request that gets past the tests.
pub record IsAdmitted (q : Platform) (r : PrepareRequest) (now : ℕ) (s : Service) : Type 0 where
  pub enabled : s.settings.receive_enabled ≡ true
  pub allowed : allow s.pin_attempts r.peer_address now ≡ true
  pub pin : check_pin q s.settings r.pin ≡ true
  pub some_file : 0 < length r.files
  pub few_files : length r.files ≤ max_files_per_session
  pub sender :
      (info : Payload) × (r.info ≡ some info)
      × ClaimsOwnKey q r (from_payload q info).fingerprint
      × NotBlocked q s.known (from_payload q info).fingerprint

filled {ℓ} : {A : Type ℓ} (xs : List A) → is_empty xs ≡ false → 0 < length xs
filled [] h = cc
filled (a ∷ xs) h = omega arith

module _ (q : Platform) (e : Env) where
  certificate_matches-ClaimsOwnKey :
      (r : PrepareRequest) (fingerprint : Text)
      → certificate_matches q e r.certificate fingerprint ≡ true
      → ClaimsOwnKey q r fingerprint
  certificate_matches-ClaimsOwnKey r fingerprint h = elim (Option-cases r.certificate) [
    | inl hidden ↦ inl hidden
    | inr (observed, shown) ↦ inr (observed, shown, rw shown at h)
  ]

  blocks-NotBlocked :
      (known : Option KnownDevices) (fingerprint : Text)
      → blocks q e known fingerprint ≡ false
      → NotBlocked q known fingerprint
  blocks-NotBlocked none fingerprint h = inl refl
  blocks-NotBlocked (some k) fingerprint h = inr (k, refl, h)

  prepare_peer-guards :
      (info : Payload) (r : PrepareRequest) (now : ℕ) (s : Service)
      → is_busy s ≡ false
      → is_busy (prepare_peer q e info r now s) ≡ true
      → (certificate_matches q e r.certificate (from_payload q info).fingerprint ≡ true)
        × (blocks q e s.known (from_payload q info).fingerprint ≡ false)
  unfolding prepare_peer
  prepare_peer-guards info r now s free busy = ground (arith, respond-is_busy r.conn 403 s)

  prepare_body-guards :
      (found : Option Payload) (r : PrepareRequest) (now : ℕ) (s : Service)
      → is_busy s ≡ false
      → is_busy (prepare_body q e found r now s) ≡ true
      → (0 < length r.files)
        × (length r.files ≤ max_files_per_session)
        × ((info : Payload) × (found ≡ some info)
            × (is_busy (prepare_peer q e info r now s) ≡ true))
  unfolding prepare_body
  prepare_body-guards none r now s free busy = ground (arith, respond-is_busy r.conn 400 s)
  prepare_body-guards (some info) r now s free busy =
      let (least, most, peer) = counts in (least, most, (info, refl, peer))
    where
      counts :
          (0 < length r.files)
          × (length r.files ≤ max_files_per_session)
          × (is_busy (prepare_peer q e info r now s) ≡ true)
      counts =
          ground (arith, filled r.files, respond-is_busy r.conn 400 s, respond-is_busy r.conn 204 s)

  prepare_upload-guards :
      (r : PrepareRequest) (now : ℕ) (s : Service)
      → is_busy s ≡ false
      → is_busy (prepare_upload q e r now s) ≡ true
      → (s.settings.receive_enabled ≡ true)
        × (allow s.pin_attempts r.peer_address now ≡ true)
        × (check_pin q s.settings r.pin ≡ true)
        × (is_busy (
              prepare_body q e r.info r now
                (record s { pin_attempts = record_success s.pin_attempts r.peer_address }))
            ≡ true)
  unfolding prepare_upload
  prepare_upload-guards r now s free busy = ground (
    arith,
    respond-is_busy r.conn 403 s,
    respond-is_busy r.conn 409 s,
    respond-is_busy r.conn 429 s,
    respond-is_busy r.conn 401
        (record s { pin_attempts = record_failure s.pin_attempts r.peer_address now }),
  )

  -- A request comes before the user, or opens a session by itself, only if receiving is on, its
  -- address is not held back for wrong PINs, the PIN is right, it offers between one file and the
  -- most that a session may have, its sender claims the key it shook hands with, if it showed one,
  -- and that key is not blocked.
  pub prepare_upload-IsAdmitted :
      (r : PrepareRequest) (now : ℕ) (s : Service)
      → is_busy s ≡ false
      → is_busy (prepare_upload q e r now s) ≡ true
      → IsAdmitted q r now s
  prepare_upload-IsAdmitted r now s free busy =
      let (enabled, allowed, pin, body) = prepare_upload-guards r now s free busy in
      let (least, most, (info, found, peer)) = prepare_body-guards r.info r now _ free body in
      let (own, open_key) = prepare_peer-guards info r now _ free peer in
      record {
        enabled = enabled;
        allowed = allowed;
        pin = pin;
        some_file = least;
        few_files = most;
        sender = (
          info,
          found,
          certificate_matches-ClaimsOwnKey r _ own,
          blocks-NotBlocked s.known _ open_key,
        );
      }

  -- While a request waits or a session runs, another request changes nothing but the answers.
  pub prepare_upload_busy :
      (r : PrepareRequest) (now : ℕ) (s : Service)
      → is_busy s ≡ true
      → record (prepare_upload q e r now s) { answers = s.answers } ≡ s
  unfolding prepare_upload answer
  prepare_upload_busy r now s busy = ground arith
