-- ===== src/Application.antt =====
-- src/harbour-localsend.cpp: the two services over the objects that they share.
pub mod Overlap
mod Tests
use harbour_localsend.Common.{ℕ, Option}
use harbour_localsend.Platform.{Platform}
use harbour_localsend.AppSettings.{AppSettings}
use harbour_localsend.HistoryModel.{HistoryModel}
use harbour_localsend.KnownDevices.{KnownDevices}
use harbour_localsend.TransferModel.{TransferModel}
use harbour_localsend.ReceiveService
use harbour_localsend.SendService
use harbour_localsend.ReceiveService.State.{Service}
use harbour_localsend.SendService.State.{Sender}

-- The four objects stand here; the copies in the services are set before each call.
pub record Application : Type 0 where
  pub settings : AppSettings
  pub transfer : TransferModel
  pub history : HistoryModel
  pub known : Option KnownDevices
  pub receiver : Service
  pub sender : Sender

-- The services as they see the shared objects.
abbrev pub receiver_of : Application → Service
receiver_of a = record a.receiver {
  settings = a.settings;
  transfer = a.transfer;
  history = a.history;
  known = a.known;
}

abbrev pub sender_of : Application → Sender
sender_of a = record a.sender {
  settings = a.settings;
  transfer = a.transfer;
  history = a.history;
  known = a.known;
}

abbrev pub with_receiver : Service → Application → Application
with_receiver s a = record a {
  settings = s.settings;
  transfer = s.transfer;
  history = s.history;
  known = s.known;
  receiver = s;
}

abbrev pub with_sender : Sender → Application → Application
with_sender s a = record a {
  settings = s.settings;
  transfer = s.transfer;
  history = s.history;
  known = s.known;
  sender = s;
}

-- What happens to one of the services.
pub data Event : Type 0 where
  at_receiver : ReceiveService.Machine.Event → Event
  at_sender : SendService.Machine.Event → Event

module _ (q : Platform) (receiving : ReceiveService.State.Env)
    (sending : SendService.State.Env) where
  abbrev pub step : ℕ → Event → Application → Application
  step now (at_receiver v) a =
      with_receiver (ReceiveService.Machine.step q receiving now v (receiver_of a)) a
  step now (at_sender v) a = with_sender (SendService.Machine.step q sending now v (sender_of a)) a
