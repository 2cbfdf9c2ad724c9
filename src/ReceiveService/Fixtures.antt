-- ===== src/ReceiveService/Fixtures.antt =====
-- src/receiveservice.cpp: a service at rest, a system that allows everything, and the requests of a
-- session of one file, for the tests.
use harbour_localsend.Common.{◌+◌, true, false, [], ◌∷◌, ◌++◌, some, none, codes, pos}
use harbour_localsend.AppSettings.{AppSettings}
use harbour_localsend.DeviceInfo.{Payload, new_device}
use harbour_localsend.RateLimiter
use harbour_localsend.TransferModel
use harbour_localsend.ReceiveService.State.{Service, Env}
use harbour_localsend.ReceiveService.Prepare.{PrepareRequest, Descriptor}
use harbour_localsend.ReceiveService.Upload.{UploadRequest}

abbrev pub settings : AppSettings
settings = record {
  alias = codes "Phone";
  fingerprint = codes "ff";
  port = 53317;
  destination = codes "/d";
  folder_per_sender = false;
  receive_enabled = true;
  quick_save = false;
  pin_enabled = false;
  pin_salt = [];
  pin_hash = [];
  history_enabled = true;
  manual_devices = [];
}

abbrev pub idle_service : Service
idle_service = record {
  settings = settings;
  transfer = TransferModel.init;
  known = none;
  history = record { records = []; file = [] };
  pin_attempts = RateLimiter.init;
  pending = none;
  peer = new_device;
  session_id = [];
  session_address = [];
  session_directory = [];
  tokens = [];
  uploads = [];
  accept_running = false;
  idle_running = false;
  listening = true;
  disk = [];
  answers = [];
  registered = [];
  drawn = 0;
}

abbrev pub willing : Env
willing = record {
  random = λ n. codes "token" ++ (b'0' + n) ∷ [];
  can_write = λ p. true;
  can_open = λ p. true;
  can_rename = λ p. true;
}

abbrev pub ann : Payload
ann = record {
  alias = codes "Ann";
  version = codes "2.0";
  device_model = [];
  device_type = codes "mobile";
  fingerprint = codes "AB";
  download = false;
  port = none;
  protocol = codes "https";
}

abbrev pub note : Descriptor
note = record {
  id = none;
  file_name = codes "../n.txt";
  size = pos 4;
  file_type = codes "text/plain";
  sha256 = [];
}

abbrev pub request : PrepareRequest
request = record {
  conn = 1;
  peer_address = codes "10.0.0.2";
  pin = [];
  info = some ann;
  files = (codes "f", note) ∷ [];
  certificate = some (codes "ab");
}

abbrev pub upload_request : UploadRequest
upload_request = record {
  conn = 2;
  peer_address = codes "10.0.0.2";
  session_id = codes "token0";
  file_id = codes "f";
  token = codes "token1";
  content_length = pos 4;
}
