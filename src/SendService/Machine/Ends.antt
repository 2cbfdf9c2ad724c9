-- ===== src/SendService/Machine/Ends.antt =====
-- src/sendservice.cpp: however a transfer ends, the service is at rest after it.
use harbour_localsend.Common.{
  ℕ, ◌≡◌, refl, Bool, true, false, not, ◌||◌, none, is_empty, if◌then◌else◌, Text, ltb,
}
use harbour_localsend.Platform.{Platform}
use harbour_localsend.TransferModel.{completed_count}
use harbour_localsend.SendService.State.{Sender, Env, close_current_file}
use harbour_localsend.SendService.End.{
  write_history, notify_peer_cancelled, write_if_any, complete_transfer, fail_transfer, cancel,
}
use harbour_localsend.SendService.Machine.Modes.{resting, IsOrderly, IsIn}

-- No reply is awaited, no file is open, and the requests are in order.
abbrev pub IsQuiet : Sender → Type 0
IsQuiet s = (s.reply ≡ none) × (s.current_file ≡ none) × IsOrderly s.requests

pub either : (P : Sender → Type 0) (b : Bool) (x y : Sender) → P x → P y → P (if b then x else y)
either P true x y k l = k
either P false x y k l = l

pub unless :
    (P : Sender → Type 0) (b : Bool) (x y : Sender) → b ≡ true → P y → P (if not b then x else y)
unless P true x y h k = k
unless P false x y h k = absurd (cc)

pub when_on :
    (P : Sender → Type 0) (b : Bool) (x y : Sender) → b ≡ true → P x → P (if b then x else y)
when_on P true x y h k = k
when_on P false x y h k = absurd (cc)

pub when_off :
    (P : Sender → Type 0) (b : Bool) (x y : Sender) → b ≡ false → P y → P (if b then x else y)
when_off P false x y h k = k
when_off P true x y h k = absurd (cc)

write_history-IsQuiet :
    (e : Env) (now : ℕ) (s : Sender) → IsQuiet s → IsQuiet (write_history e now s)
unfolding write_history
write_history-IsQuiet e now s k = either IsQuiet (not s.settings.history_enabled) s _ k k

write_if_any-IsQuiet :
    (q : Platform) (e : Env) (now : ℕ) (s : Sender) → IsQuiet s → IsQuiet (write_if_any q e now s)
write_if_any-IsQuiet q e now s k =
    either IsQuiet (ltb 0 (completed_count s.transfer)) _ s (write_history-IsQuiet e now s k) k

notify_peer_cancelled-IsQuiet : (s : Sender) → IsQuiet s → IsQuiet (notify_peer_cancelled s)
unfolding notify_peer_cancelled
notify_peer_cancelled-IsQuiet s k =
    either IsQuiet (is_empty s.session_id || is_empty s.peer.address) s _ k k

module _ (q : Platform) (e : Env) where
  pub complete_transfer-rests :
      (now : ℕ) (s : Sender) → IsQuiet s → IsIn resting (complete_transfer q e now s)
  unfolding complete_transfer
  complete_transfer-rests now s k =
      let (r, a, o) = write_history-IsQuiet e now _ k in (refl, r, a, o)

  pub fail_transfer-rests :
      (message : Text) (now : ℕ) (s : Sender)
      → s.reply ≡ none
      → IsOrderly s.requests
      → IsIn resting (fail_transfer q e message now s)
  unfolding fail_transfer close_current_file
  fail_transfer-rests message now s reply k =
      let (r, a, o) = write_if_any-IsQuiet q e now _ (reply, refl, k) in (refl, r, a, o)

  pub cancel-rests :
      (now : ℕ) (s : Sender)
      → s.busy ≡ true
      → IsOrderly s.requests
      → IsIn resting (cancel q e now s)
  unfolding cancel close_current_file
  cancel-rests now s busy k =
      let (r, a, o) =
        write_if_any-IsQuiet q e now _ (notify_peer_cancelled-IsQuiet _ (refl, refl, k)) in
      unless (IsIn resting) s.busy s _ busy (refl, r, a, o)
