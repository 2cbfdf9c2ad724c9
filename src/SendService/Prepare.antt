-- ===== src/SendService/Prepare.antt =====
-- src/sendservice.cpp, the request and its answer: sendFiles, requestUpload, submitPin,
-- onPrepareFinished.
pub mod Told
pub mod Asked
use harbour_localsend.Common.{
  ℕ, zero, suc, ◌+◌, Bool, true, false, not, ◌&&◌, ◌||◌, List, [], ◌∷◌, ◌++◌, Option, none, some,
  is_empty, length, take, ◌==◌, if◌then◌else◌, Text, codes, text_eq, find, ℤ, pos,
}
use harbour_localsend.Platform.{Platform}
use harbour_localsend.DeviceInfo.{DeviceInfo, new_device, port_or_default}
use harbour_localsend.KnownDevices.{KnownDevices, is_blocked}
use harbour_localsend.TransferModel
use harbour_localsend.TransferModel.{
  TransferModel, FileEntry, new_file, sending, requesting, idle, active, failed, cancelled,
  file_skipped, begin, set_state, set_file_status, set_file_token,
}
use harbour_localsend.SendService.State.{
  Sender, Env, Descriptor, Request, prepare, Signal, busy_changed, declined, pin_required, finished,
  emit, post, clear_reply,
}
use harbour_localsend.SendService.End.{fail_transfer}
use harbour_localsend.SendService.Upload.{Reply, start_next_file}

-- A row of the device list as the page hands it over; a key that is missing reads as empty, or as
-- none where the source gives a default.
pub record Device : Type 0 where
  pub alias : Text
  pub hardware : Text
  pub device_type : Text
  pub fingerprint : Text
  pub address : Text
  pub port : Option ℤ
  pub protocol : Option Text

abbrev pub text_or : Text → Option Text → Text
text_or default none = default
text_or default (some t) = t

unfoldable pub peer_of : Device → DeviceInfo
peer_of d = record new_device {
  alias = d.alias;
  device_model = d.hardware;
  device_type = d.device_type;
  fingerprint = d.fingerprint;
  address = d.address;
  port = port_or_default d.port;
  protocol = text_or (codes "http") d.protocol;
}

abbrev pub starts_with : Text → Text → Bool
starts_with [] t = true
starts_with (a ∷ p) [] = false
starts_with (a ∷ p) (b ∷ t) = if a == b then starts_with p t else false

abbrev pub descriptor : FileEntry → Descriptor
descriptor f = record { id = f.id; file_name = f.file_name; size = f.size; file_type = f.file_type }

abbrev pub descriptors : List FileEntry → List Descriptor
descriptors [] = []
descriptors (f ∷ fs) = descriptor f ∷ descriptors fs

unfoldable pub request_upload : Text → Sender → Sender
request_upload pin s = post (prepare pin (descriptors s.transfer.files)) s

unfoldable pub submit_pin : Text → ℕ → Sender → Sender
submit_pin pin now s =
    if not s.busy || is_empty pin
    then s
    else request_upload pin
        (record s { pin_attempted = true; transfer = set_state requesting [] now s.transfer })

abbrev pub token_of : List (Text × Text) → Text → Text
token_of tokens id = text_or [] (find id tokens)

-- The loop of onPrepareFinished over the rows, from the file at `row` on, and its count.
unfoldable pub give_tokens :
    List (Text × Text) → ℕ → ℕ → List FileEntry → TransferModel → TransferModel
give_tokens tokens now row [] m = m
give_tokens tokens now row (f ∷ fs) m = give_tokens tokens now (row + 1) fs (
    if is_empty (token_of tokens f.id)
    then set_file_status row file_skipped [] now m
    else set_file_token row (token_of tokens f.id) m)

unfoldable pub count_accepted : List (Text × Text) → List FileEntry → ℕ
count_accepted tokens [] = 0
count_accepted tokens (f ∷ fs) =
    if is_empty (token_of tokens f.id)
    then count_accepted tokens fs
    else suc (count_accepted tokens fs)

-- The end of a transfer in which nothing has to be sent, or may be.
abbrev pub end_early : Text → Sender → Sender
end_early status s = record s {
  busy = false;
  signals = finished status 0 ∷ busy_changed ∷ s.signals;
}

module _ (q : Platform) (e : Env) where
  open q use {number, file_name}

  unfoldable pub local_path_of : Text → Text
  local_path_of path = if starts_with (codes "file://") path then e.to_local_file path else path

  -- The loop over the paths, from number `i` on; `n` tokens have been drawn.
  unfoldable pub read_entries : ℕ → ℕ → List Text → List FileEntry
  read_entries i n [] = []
  read_entries i n (p ∷ paths) = elim (e.is_readable (local_path_of p)) [
    | false ↦ read_entries (suc i) n paths
    | true ↦
        record new_file {
          id = number i ++ (b'-' ∷ take 12 (e.random n));
          file_name = file_name (local_path_of p);
          size = e.size (local_path_of p);
          local_path = local_path_of p;
          file_type = e.mime_type (local_path_of p);
        }
        ∷ read_entries (suc i) (suc n) paths
  ]

  abbrev pub hides : Option KnownDevices → Text → Bool
  hides none fingerprint = false
  hides (some k) fingerprint = is_blocked q k fingerprint

  abbrev pub begin_sending : DeviceInfo → List FileEntry → ℕ → TransferModel → TransferModel
  begin_sending peer entries now m =
      begin sending peer.alias peer.address peer.device_type peer.fingerprint entries now m

  abbrev pub send_entries : DeviceInfo → List FileEntry → ℕ → Sender → Sender
  send_entries peer [] now s = s
  send_entries peer (f ∷ fs) now s = request_upload [] (record s {
    peer = peer;
    session_id = [];
    cancelled = false;
    pin_attempted = false;
    busy = true;
    signals = busy_changed ∷ s.signals;
    drawn = s.drawn + length (f ∷ fs);
    transfer = set_state requesting [] now (begin_sending peer (f ∷ fs) now s.transfer);
  })

  unfoldable pub send_files : Device → List Text → ℕ → Sender → Sender
  send_files d paths now s =
      let peer = peer_of d in
      if s.busy
      then s
      else if is_empty peer.address || is_empty paths
      then s
      else if hides s.known peer.fingerprint
      then record s {
        transfer =
            set_state failed (codes "This device is blocked") now
              (begin_sending peer [] now s.transfer);
      }
      else send_entries peer (read_entries 0 s.drawn paths) now s

  -- The files that the peer accepted.
  unfoldable pub take_tokens : List (Text × Text) → ℕ → Sender → Sender
  take_tokens tokens now s =
      let given = give_tokens tokens now 0 s.transfer.files s.transfer in
      if count_accepted tokens s.transfer.files == 0
      then end_early (codes "finished")
          (record s { transfer = set_state TransferModel.finished [] now given })
      else start_next_file q e now
          (record s { transfer = set_state active [] now given; current_row = none })

  abbrev pub unreadable : ℕ → Sender → Sender
  unreadable now s = fail_transfer q e (s.peer.alias ++ codes " sent an unreadable reply") now s

  -- The session id is taken over before it is looked at.
  abbrev pub read_answer : Option (Text × List (Text × Text)) → ℕ → Sender → Sender
  read_answer none now s = unreadable now s
  read_answer (some (session_id, tokens)) now s =
      let opened : Sender = record s { session_id = session_id } in
      if is_empty session_id || is_empty tokens
      then unreadable now opened
      else take_tokens tokens now opened

  unfoldable pub prepare_answered : Reply → ℕ → Sender → Sender
  prepare_answered r now s =
      if r.has_error && r.status == 0
      then fail_transfer q e (codes "Could not reach " ++ s.peer.alias) now s
      else if r.status == 200
      then read_answer r.body now s
      else if r.status == 204
      then end_early (codes "finished")
          (record s { transfer = set_state TransferModel.finished [] now s.transfer })
      else if r.status == 401
      then emit (pin_required s.pin_attempted)
          (record s { transfer = set_state idle [] now s.transfer })
      else if r.status == 403
      then record s {
        transfer = set_state cancelled [] now s.transfer;
        busy = false;
        signals = finished (codes "declined") 0 ∷ declined ∷ busy_changed ∷ s.signals;
      }
      else if r.status == 409
      then fail_transfer q e (s.peer.alias ++ codes " is busy with another transfer") now s
      else if r.status == 429
      then fail_transfer q e (s.peer.alias ++ codes " is refusing new requests") now s
      else fail_transfer q e
          (s.peer.alias ++ (codes " refused the transfer (" ++ (number r.status ++ (b')' ∷ []))))
          now s

  unfoldable pub on_prepare_finished : ℕ → Reply → ℕ → Sender → Sender
  on_prepare_finished id r now s =
      if s.cancelled then clear_reply id s else prepare_answered r now (clear_reply id s)
