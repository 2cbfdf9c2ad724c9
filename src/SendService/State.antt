-- ===== src/SendService/State.antt =====
-- src/sendservice.h: the state of the service. A request is posted by putting it in front of
-- `requests`, and is known by how many there were before; `reply` is the one that `m_reply` holds.
use harbour_localsend.Common.{
  ℕ, ◌==◌, Bool, List, ◌∷◌, Option, none, some, length, if◌then◌else◌, Text,
}
use harbour_localsend.AppSettings.{AppSettings}
use harbour_localsend.DeviceInfo.{DeviceInfo}
use harbour_localsend.HistoryModel.{HistoryModel}
use harbour_localsend.KnownDevices.{KnownDevices}
use harbour_localsend.TransferModel.{TransferModel}

-- One entry of the `files` object of prepare-upload.
pub record Descriptor : Type 0 where
  pub id : Text
  pub file_name : Text
  pub size : ℕ
  pub file_type : Text

-- What is posted to the peer.
pub data Request : Type 0 where
  prepare : (pin : Text) (files : List Descriptor) → Request
  upload : (row : ℕ) (session_id file_id token local_path : Text) (size : ℕ) → Request
  cancelling : (session_id : Text) → Request

pub data Signal : Type 0 where
  busy_changed declined : Signal
  pin_required : (retry : Bool) → Signal
  finished : (status : Text) (file_count : ℕ) → Signal

pub record Sender : Type 0 where
  pub settings : AppSettings
  pub transfer : TransferModel
  pub history : HistoryModel
  pub known : Option KnownDevices
  pub peer : DeviceInfo
  pub session_id : Text
  pub reply : Option ℕ
  pub current_file : Option Text  -- the path of the open file
  pub current_row : Option ℕ  -- none is -1
  pub busy : Bool
  pub cancelled : Bool
  pub pin_attempted : Bool
  pub requests : List Request
  pub signals : List Signal
  pub drawn : ℕ

-- What the system around the service decides: the random tokens, which paths are readable files,
-- their sizes and types, which of them open, and the path that a URL names.
pub record Env : Type 0 where
  pub random : ℕ → Text
  pub is_readable : Text → Bool
  pub size : Text → ℕ
  pub mime_type : Text → Text
  pub opens : Text → Bool
  pub to_local_file : Text → Text

abbrev pub emit : Signal → Sender → Sender
emit signal s = record s { signals = signal ∷ s.signals }

-- `m_network->post` without and with keeping the reply
abbrev pub post_only : Request → Sender → Sender
post_only r s = record s { requests = r ∷ s.requests }

abbrev pub post : Request → Sender → Sender
post r s = record s { requests = r ∷ s.requests; reply = some (length s.requests) }

unfoldable pub close_current_file : Sender → Sender
close_current_file s = record s { current_file = none }

-- `if (m_reply == reply) m_reply.clear();`
abbrev pub cleared : Option ℕ → ℕ → Option ℕ
cleared none id = none
cleared (some r) id = if r == id then none else some r

unfoldable pub clear_reply : ℕ → Sender → Sender
clear_reply id s = record s { reply = cleared s.reply id }
