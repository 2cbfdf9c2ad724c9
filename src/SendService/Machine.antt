-- ===== src/SendService/Machine.antt =====
-- src/sendservice.cpp as a state machine: what the user and the replies bring, and what it makes of
-- each.
pub mod Modes
pub mod Files
pub mod Ends
pub mod Between
pub mod Uploads
pub mod Ending
pub mod Orderly
use harbour_localsend.Common.{ℕ, ◌≡◌, Bool, true, false, List, [], ◌∷◌, Option, none, some, Text, ℤ}
use harbour_localsend.Platform.{Platform}
use harbour_localsend.SendService.State.{Sender, Env}
use harbour_localsend.SendService.End.{cancel}
use harbour_localsend.SendService.Upload.{Reply, on_upload_finished, on_upload_progress}
use harbour_localsend.SendService.Prepare.{Device, send_files, submit_pin, on_prepare_finished}

pub data Event : Type 0 where
  sends : Device → (paths : List Text) → Event
  submits : (pin : Text) → Event
  prepare_replies : (id : ℕ) → Reply → Event
  upload_replies : (id : ℕ) → Reply → Event
  progresses : (row : ℕ) (sent : ℤ) → Event
  cancels : Event

module _ (q : Platform) (e : Env) where
  abbrev pub step : ℕ → Event → Sender → Sender
  step now (sends d paths) s = send_files q e d paths now s
  step now (submits pin) s = submit_pin pin now s
  step now (prepare_replies id r) s = on_prepare_finished q e id r now s
  step now (upload_replies id r) s = on_upload_finished q e id r now s
  step now (progresses row sent) s = on_upload_progress row sent s
  step now cancels s = cancel q e now s
