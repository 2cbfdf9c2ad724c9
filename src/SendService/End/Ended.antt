-- ===== src/SendService/End/Ended.antt =====
-- src/sendservice.cpp: what `cancel` leaves.
use harbour_localsend.Common.{
  ℕ, ◌≡◌, refl, sym, Bool, true, false, not, ◌||◌, List, [], ◌∷◌, none, is_empty, All, ltb,
  if◌then◌else◌, subst,
}
use harbour_localsend.Platform.{Platform}
use harbour_localsend.TransferModel.{cancelled, set_state, completed_count}
use harbour_localsend.TransferModel.Files.{set_state-files}
use harbour_localsend.ReceiveService.Finish.{skip_rows}
use harbour_localsend.ReceiveService.Finish.Skipped.{IsOver, skip_rows-IsOver}
use harbour_localsend.SendService.State.{Sender, Env, Request, cancelling, close_current_file}
use harbour_localsend.SendService.End.{write_history, write_if_any, notify_peer_cancelled, cancel}
use harbour_localsend.SendService.Machine.Ends.{either, unless}

-- Every row is over, no reply is awaited, no file is open, and `requests` has been posted.
abbrev pub IsStill : List Request → Sender → Type 0
IsStill requests s =
    All IsOver s.transfer.files
    × (s.reply ≡ none)
    × (s.current_file ≡ none)
    × (s.cancelled ≡ true)
    × (s.requests ≡ requests)

write_if_any-IsStill :
    (q : Platform) (e : Env) (rs : List Request) (now : ℕ) (s : Sender)
    → IsStill rs s
    → IsStill rs (write_if_any q e now s)
unfolding write_history
write_if_any-IsStill q e rs now s k =
    either (IsStill rs) (ltb 0 (completed_count s.transfer)) _ s
      (either (IsStill rs) (not s.settings.history_enabled) s _ k k) k

-- What the peer is told of the end.
abbrev pub goodbye : Sender → List Request
goodbye s =
    if is_empty s.session_id || is_empty s.peer.address
    then s.requests
    else cancelling s.session_id ∷ s.requests

-- No reply is awaited, no file is open, and `requests` has been posted.
abbrev IsHushed : List Request → Sender → Type 0
IsHushed requests s =
    (s.reply ≡ none) × (s.current_file ≡ none) × (s.cancelled ≡ true) × (s.requests ≡ requests)

hushed :
    (s : Sender)
    → IsHushed
        (goodbye s)
        (notify_peer_cancelled (close_current_file (record s { cancelled = true; reply = none })))
unfolding notify_peer_cancelled close_current_file
hushed s = by_test (is_empty s.session_id || is_empty s.peer.address)
  where
    calm : Sender
    calm = record s { cancelled = true; reply = none; current_file = none }

    by_test :
        (b : Bool)
        → IsHushed
            (if b then s.requests else cancelling s.session_id ∷ s.requests)
            (if b then calm else record calm { requests = cancelling s.session_id ∷ s.requests })
    by_test true = (refl, refl, refl, refl)
    by_test false = (refl, refl, refl, refl)

-- A `cancel` of a transfer that runs leaves the service free, no row waiting or under way, no reply
-- awaited and no file open; the handlers of aborted replies are off, and the peer is told exactly if
-- it has named a session and its address is known.
pub cancel_ends :
    (q : Platform) (e : Env) (now : ℕ) (s : Sender)
    → s.busy ≡ true
    → ((cancel q e now s).busy ≡ false) × IsStill (goodbye s) (cancel q e now s)
unfolding cancel
cancel_ends q e now s busy =
    let (reply, file, off, posted) = hushed s in
    let (over, r, f, o, p) = write_if_any-IsStill q e (goodbye s) now ended (
      subst (All IsOver) (sym (set_state-files cancelled [] now _))
          (skip_rows-IsOver now [] told.transfer.files told.transfer refl tt),
      reply,
      file,
      off,
      posted,
    ) in
    unless (λ t. (t.busy ≡ false) × IsStill (goodbye s) t) s.busy s _ busy
      (refl, (over, r, f, o, p))
  where
    told : Sender
    told = notify_peer_cancelled (close_current_file (record s { cancelled = true; reply = none }))

    ended : Sender
    ended = record told {
      transfer = set_state cancelled [] now (skip_rows now 0 told.transfer.files told.transfer);
    }
