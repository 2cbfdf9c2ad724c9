-- ===== src/ReceiveService/Prepare.antt =====
-- src/receiveservice.cpp, prepare-upload and its answer: handlePrepareUpload, accept, decline,
-- onAcceptTimeout, onPendingClosed, handleCancel, cancel, prepareDirectory.
pub mod Admitted
pub mod Taken
use harbour_localsend.Common.{
  ℕ, ◌+◌, Bool, true, false, not, ◌&&◌, ◌||◌, List, [], ◌∷◌, ◌++◌, Option, none, some, length,
  is_empty, ltb, ◌==◌, if◌then◌else◌, Text, codes, text_eq, insert, ℤ, pos_part,
}
use harbour_localsend.Platform.{Platform}
use harbour_localsend.Crypto.{equals_fold}
use harbour_localsend.Protocol.{sanitize_text}
use harbour_localsend.AppSettings.{check_pin}
use harbour_localsend.DeviceInfo.{DeviceInfo, Payload, from_payload}
use harbour_localsend.KnownDevices.{KnownDevices, is_blocked}
use harbour_localsend.RateLimiter.{allow, record_failure, record_success}
use harbour_localsend.TransferModel.{
  FileEntry, new_file, pending, idle, active, failed, cancelled, receiving, begin, set_state,
  set_destination, set_file_token,
}
use harbour_localsend.ReceiveService.FileName.{sanitize_file_name}
use harbour_localsend.ReceiveService.State.{Service, Pending, Env, answer, respond, is_some}
use harbour_localsend.ReceiveService.Finish.{release_pending, finish_session, ended_cancelled}

abbrev pub max_files_per_session : ℕ
max_files_per_session = 2000

-- A value of the `files` object. `id` is none where it is no text; `size` is the double, cut to a
-- whole number.
pub record Descriptor : Type 0 where
  pub id : Option Text
  pub file_name : Text
  pub size : ℤ
  pub file_type : Text
  pub sha256 : Text

-- The request after its JSON body was read: `info` is none if that object is missing or empty,
-- `files` has the object's members in the order of their keys, `certificate` is the fingerprint of
-- the certificate that the client presented, if any.
pub record PrepareRequest : Type 0 where
  pub conn : ℕ
  pub peer_address : Text
  pub pin : Text
  pub info : Option Payload
  pub files : List (Text × Descriptor)
  pub certificate : Option Text

abbrev pub text_or : Text → Option Text → Text
text_or default none = default
text_or default (some t) = t

module _ (q : Platform) (e : Env) where
  -- the body of the loop over the ids
  unfoldable pub read_entry : Text × Descriptor → FileEntry
  read_entry (key, d) = record new_file {
    id = text_or key d.id;
    file_name = if is_empty d.file_name then codes "file" else d.file_name;
    size = pos_part d.size;
    file_type = sanitize_text q d.file_type 128;
    sha256 = sanitize_text q d.sha256 128;
  }

  abbrev pub read_entries : List (Text × Descriptor) → List FileEntry
  read_entries [] = []
  read_entries (f ∷ files) = read_entry f ∷ read_entries files

  unfoldable pub prepare_directory : Service → Option Text
  prepare_directory s =
      let path =
        if s.settings.folder_per_sender && not (is_empty s.peer.alias)
        then s.settings.destination ++ (b'/' ∷ sanitize_file_name q s.peer.alias)
        else s.settings.destination in
      if e.can_write path then some path else none

  -- The loop of `accept` over the rows, from the file at `row` on; `n` tokens have been drawn.
  unfoldable pub issue_tokens : ℕ → List FileEntry → ℕ → Service → Service
  issue_tokens row [] n s = record s { drawn = n }
  issue_tokens row (f ∷ fs) n s = issue_tokens (row + 1) fs (n + 1) (record s {
    transfer = set_file_token row (e.random n) s.transfer;
    tokens = insert f.id (e.random n) s.tokens;
  })

  unfoldable pub accept_in : Pending → ℕ → Option Text → Service → Service
  accept_in p now none s = record (release_pending (respond p.conn 500 s)) {
    accept_running = false;
    transfer = set_state failed (codes "Cannot write to the destination folder") now s.transfer;
  }
  accept_in p now (some directory) s =
      let opened = issue_tokens 0 s.transfer.files (s.drawn + 1) (record s {
        session_id = e.random s.drawn;
        session_address = p.peer_address;
        session_directory = directory;
        tokens = [];
      }) in
      let answered =
        answer p.conn (record { status = 200; session = opened.session_id; tokens = opened.tokens })
          opened in
      record (release_pending answered) {
        accept_running = false;
        transfer = set_state active [] now (set_destination directory answered.transfer);
        idle_running = true;
      }

  abbrev pub accept_pending : ℕ → Option Pending → Service → Service
  accept_pending now none s = s
  accept_pending now (some p) s = accept_in p now (prepare_directory s) s

  unfoldable pub accept : ℕ → Service → Service
  accept now s = accept_pending now s.pending s

  abbrev pub decline_pending : ℕ → Option Pending → Service → Service
  decline_pending now none s = s
  decline_pending now (some p) s = record (release_pending (respond p.conn 403 s)) {
    accept_running = false;
    transfer = set_state idle [] now s.transfer;
  }

  unfoldable pub decline : ℕ → Service → Service
  decline now s = decline_pending now s.pending s

  abbrev pub time_out_pending : ℕ → Option Pending → Service → Service
  time_out_pending now none s = s
  time_out_pending now (some p) s = record (release_pending (respond p.conn 403 s)) {
    transfer = set_state idle [] now s.transfer;
  }

  -- The timer is a single shot: it has stopped when it fires.
  unfoldable pub on_accept_timeout : ℕ → Service → Service
  on_accept_timeout now s = time_out_pending now s.pending (record s { accept_running = false })

  abbrev pub is_pending_conn : ℕ → Option Pending → Bool
  is_pending_conn conn none = false
  is_pending_conn conn (some p) = p.conn == conn

  unfoldable pub on_pending_closed : ℕ → ℕ → Service → Service
  on_pending_closed conn now s = if not (is_pending_conn conn s.pending) then s else record s {
    pending = none;
    accept_running = false;
    transfer = if is_empty s.session_id then set_state idle [] now s.transfer else s.transfer;
  }

  abbrev pub certificate_matches : Option Text → Text → Bool
  certificate_matches none fingerprint = true
  certificate_matches (some observed) fingerprint = equals_fold q observed fingerprint

  abbrev pub blocks : Option KnownDevices → Text → Bool
  blocks none fingerprint = false
  blocks (some k) fingerprint = is_blocked q k fingerprint

  abbrev pub peer_of : Payload → Text → DeviceInfo
  peer_of info address = record (from_payload q info) { address = address }

  -- A request that has passed every test goes before the user, or is accepted at once.
  unfoldable pub admit : Payload → PrepareRequest → ℕ → Service → Service
  admit info r now s =
      let peer = peer_of info r.peer_address in
      let parked = record s {
        registered = (info, r.peer_address) ∷ s.registered;
        peer = peer;
        transfer = set_state pending [] now (
            begin receiving peer.alias peer.address peer.device_type peer.fingerprint
              (read_entries r.files) now s.transfer);
        pending = some (record { conn = r.conn; peer_address = r.peer_address });
      } in
      if parked.settings.quick_save
      then accept now parked
      else record parked { accept_running = true }

  unfoldable pub prepare_peer : Payload → PrepareRequest → ℕ → Service → Service
  prepare_peer info r now s =
      let peer = peer_of info r.peer_address in
      if not (certificate_matches r.certificate peer.fingerprint)
      then respond r.conn 403 s
      else if blocks s.known peer.fingerprint
      then respond r.conn 403 s
      else admit info r now s

  unfoldable pub prepare_body : Option Payload → PrepareRequest → ℕ → Service → Service
  prepare_body none r now s = respond r.conn 400 s
  prepare_body (some info) r now s =
      if is_empty r.files
      then respond r.conn 204 s
      else if ltb max_files_per_session (length r.files)
      then respond r.conn 400 s
      else prepare_peer info r now s

  -- The Retry-After header of the answer 429 is not part of `Answer`.
  unfoldable pub prepare_upload : PrepareRequest → ℕ → Service → Service
  prepare_upload r now s =
      if not s.settings.receive_enabled
      then respond r.conn 403 s
      else if is_some s.pending || not (is_empty s.session_id)
      then respond r.conn 409 s
      else if not (allow s.pin_attempts r.peer_address now)
      then respond r.conn 429 s
      else if not (check_pin q s.settings r.pin)
      then respond r.conn 401
          (record s { pin_attempts = record_failure s.pin_attempts r.peer_address now })
      else prepare_body r.info r now
          (record s { pin_attempts = record_success s.pin_attempts r.peer_address })

  -- The /cancel endpoint.
  unfoldable pub handle_cancel : ℕ → Text → ℕ → Service → Service
  handle_cancel conn session_id now s =
      let told = respond conn 200 s in
      if is_some s.pending && is_empty s.session_id
      then record (release_pending told) {
        accept_running = false;
        transfer = set_state cancelled [] now s.transfer;
      }
      else if not (is_empty s.session_id)
          && (is_empty session_id || text_eq session_id s.session_id)
      then finish_session q ended_cancelled now told
      else told

  -- The user's cancel; the notice to the peer is not modelled.
  unfoldable pub cancel : ℕ → Service → Service
  cancel now s =
      if is_some s.pending && is_empty s.session_id
      then decline now s
      else if is_empty s.session_id
      then s
      else finish_session q ended_cancelled now s
