-- ===== src/ReceiveService/Machine.antt =====
-- src/receiveservice.cpp as a state machine: the events that its requests, timers, connections and
-- the user bring, and what it makes of each.
pub mod Diagram
pub mod Frame
pub mod Answer
pub mod Moves
pub mod Refine
mod Tests
use harbour_localsend.Common.{ℕ, Bool, List, [], ◌∷◌, Text}
use harbour_localsend.Platform.{Platform}
use harbour_localsend.ReceiveService.State.{Service, Env}
use harbour_localsend.ReceiveService.Finish.{on_session_idle, stop_listening}
use harbour_localsend.ReceiveService.Prepare.{
  PrepareRequest, prepare_upload, accept, decline, on_accept_timeout, on_pending_closed,
  handle_cancel, cancel,
}
use harbour_localsend.ReceiveService.Upload.{
  UploadRequest, handle_upload_headers, deliver, handle_upload_finished, on_upload_closed,
}

pub data Event : Type 0 where
  prepares : PrepareRequest → Event
  accepts declines times_out cancels idles stops : Event
  pending_closes : (conn : ℕ) → Event
  sender_cancels : (conn : ℕ) (session_id : Text) → Event
  starts_upload : UploadRequest → Event
  brings : (conn : ℕ) (block : Text) (writes : Bool) → Event
  ends_upload : (conn : ℕ) → Event
  upload_closes : (conn : ℕ) → Event

module _ (q : Platform) (e : Env) where
  abbrev pub step : ℕ → Event → Service → Service
  step now (prepares r) s = prepare_upload q e r now s
  step now accepts s = accept q e now s
  step now declines s = decline q e now s
  step now times_out s = on_accept_timeout q e now s
  step now cancels s = cancel q e now s
  step now idles s = on_session_idle q now s
  step now stops s = stop_listening q now s
  step now (pending_closes conn) s = on_pending_closed q e conn now s
  step now (sender_cancels conn session_id) s = handle_cancel q e conn session_id now s
  step now (starts_upload r) s = handle_upload_headers q e r now s
  step now (brings conn block writes) s = deliver conn block writes s
  step now (ends_upload conn) s = handle_upload_finished q e conn now s
  step now (upload_closes conn) s = on_upload_closed q e conn now s
  -- Events with the times at which they come, the first one first.
