-- ===== src/ReceiveService/Machine/Diagram.antt =====
-- src/receiveservice.h: the sessions of the service as a diagram of three modes.
use harbour_localsend.Common.{ℕ, ◌≡◌, true, false, [], none, is_empty, Text}
use harbour_localsend.ReceiveService.State.{Service, is_some}
use harbour_localsend.ReceiveService.Prepare.{PrepareRequest}
use harbour_localsend.ReceiveService.Machine.{
  Event, prepares, accepts, declines, times_out, cancels, idles, stops, pending_closes,
  sender_cancels, ends_upload, upload_closes,
}

pub data Mode : Type 0 where
  idle waiting receiving : Mode

-- Only a request leaves the idle mode, only the user's answer starts a session that waits for one,
-- and nothing leads from a session to a request that waits. Uploads and their blocks move nothing.
pub data Move : Event → Mode → Mode → Type 0 where
  stays : {event : Event} {m : Mode} → Move event m m
  asks : {r : PrepareRequest} → Move (prepares r) idle waiting
  asks_quickly : {r : PrepareRequest} → Move (prepares r) idle receiving
  grants : Move accepts waiting receiving
  grants_nothing : Move accepts waiting idle
  refuses : Move declines waiting idle
  expires : Move times_out waiting idle
  leaves : {conn : ℕ} → Move (pending_closes conn) waiting idle
  withdraws : {conn : ℕ} {t : Text} → Move (sender_cancels conn t) waiting idle
  breaks_off : {conn : ℕ} {t : Text} → Move (sender_cancels conn t) receiving idle
  dismisses : Move cancels waiting idle
  stops_short : Move cancels receiving idle
  completes : {conn : ℕ} → Move (ends_upload conn) receiving idle
  loses : {conn : ℕ} → Move (upload_closes conn) receiving idle
  lapses : Move idles receiving idle
  shuts : {m : Mode} → Move stops m idle

-- What a mode says of the service: what is there of a request, a session, tokens and uploads.
abbrev pub IsIn : Mode → Service → Type 0
IsIn idle s = (s.session_id ≡ []) × (s.tokens ≡ []) × (s.uploads ≡ []) × (s.pending ≡ none)
IsIn waiting s =
    (s.session_id ≡ []) × (s.tokens ≡ []) × (s.uploads ≡ []) × (is_some s.pending ≡ true)
IsIn receiving s = (is_empty s.session_id ≡ false) × (s.pending ≡ none)
