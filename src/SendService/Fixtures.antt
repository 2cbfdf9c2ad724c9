-- ===== src/SendService/Fixtures.antt =====
-- src/sendservice.cpp: a service at rest, a system that allows everything, and the replies of a peer
-- that takes the first file of two, for the tests.
use harbour_localsend.Common.{◌+◌, true, false, [], ◌∷◌, ◌++◌, some, none, codes, List, Text}
use harbour_localsend.DeviceInfo.{new_device}
use harbour_localsend.TransferModel
use harbour_localsend.ReceiveService.Fixtures.{settings}
use harbour_localsend.SendService.State.{Sender, Env}
use harbour_localsend.SendService.Upload.{Reply}
use harbour_localsend.SendService.Prepare.{Device}

abbrev pub idle_sender : Sender
idle_sender = record {
  settings = settings;
  transfer = TransferModel.init;
  history = record { records = []; file = [] };
  known = none;
  peer = new_device;
  session_id = [];
  reply = none;
  current_file = none;
  current_row = none;
  busy = false;
  cancelled = false;
  pin_attempted = false;
  requests = [];
  signals = [];
  drawn = 0;
}

abbrev pub willing : Env
willing = record {
  random = λ n. codes "r" ++ (b'0' + n) ∷ [];
  is_readable = λ p. true;
  size = λ p. 4;
  mime_type = λ p. codes "text/plain";
  opens = λ p. true;
  to_local_file = λ p. p;
}

abbrev pub bob : Device
bob = record {
  alias = codes "Bob";
  hardware = [];
  device_type = codes "mobile";
  fingerprint = codes "BB";
  address = codes "10.0.0.3";
  port = none;
  protocol = some (codes "https");
}

abbrev pub paths : List Text
paths = codes "/h/a" ∷ codes "/h/b" ∷ []

abbrev pub takes_first : Reply
takes_first = record {
  has_error = false;
  status = 200;
  error_string = [];
  body = some (codes "s", (codes "0-r0", codes "t") ∷ []);
}

abbrev pub received : Reply
received = record { has_error = false; status = 200; error_string = []; body = none }
