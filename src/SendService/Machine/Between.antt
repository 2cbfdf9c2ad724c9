-- ===== src/SendService/Machine/Between.antt =====
-- src/sendservice.cpp, startNextFile: where the search for the next file stands.
use harbour_localsend.Common.{
  ℕ, ◌+◌, ◌≡◌, sym, ap, ◌∙◌, arith, true, false, List, [], ◌∷◌, ◌++◌, none, some, length, is_empty,
  All, All-append, subst,
}
use harbour_localsend.TransferModel.{FileEntry}
use harbour_localsend.TransferModel.Middle.{length-snoc, snoc}
use harbour_localsend.ReceiveService.Finish.Skipped.{IsOver}
use harbour_localsend.SendService.State.{Sender, Request, prepare, upload, cancelling, cleared}
use harbour_localsend.SendService.Machine.Modes.{IsAbove, IsOrderly, IsReady}

-- The rows `before` are over, and those from there on, `fs`, have had their tokens.
pub record IsBetween (before fs : List FileEntry) (s : Sender) : Type 0 where
  pub split : s.transfer.files ≡ before ++ fs
  pub over : All IsOver before
  pub ready : All IsReady fs
  pub busy : s.busy ≡ true
  pub runs : s.cancelled ≡ false
  pub session : is_empty s.session_id ≡ false
  pub replied : s.reply ≡ none
  pub closed : s.current_file ≡ none
  pub above : IsAbove (length before) s.requests
  pub orderly : IsOrderly s.requests

IsAbove-add : (row : ℕ) (rs : List Request) → IsAbove row rs → IsAbove (row + 1) rs
IsAbove-add row [] k = tt
IsAbove-add row (prepare pin files ∷ rs) k = tt
IsAbove-add row (cancelling session_id ∷ rs) k = tt
IsAbove-add row (upload r session_id file_id token local_path size ∷ rs) k = omega (arith, k)

-- The row behind `before` is passed over, and is `g` from then on.
pub pass :
    (before : List FileEntry) (f g : FileEntry) (fs : List FileEntry) (s t : Sender)
    → IsBetween before (f ∷ fs) s
    → IsOver g
    → t.transfer.files ≡ before ++ g ∷ fs
    → t.busy ≡ s.busy
    → t.cancelled ≡ s.cancelled
    → t.session_id ≡ s.session_id
    → t.reply ≡ s.reply
    → t.current_file ≡ s.current_file
    → t.requests ≡ s.requests
    → IsBetween (before ++ g ∷ []) fs t
pass before f g fs s t k over files busy cancelled session reply file requests = record {
  split = files ∙ snoc before g fs;
  over = All-append _ before (g ∷ []) k.over (over, tt);
  ready = k.ready.1;
  busy = busy ∙ k.busy;
  runs = cancelled ∙ k.runs;
  session = ap is_empty session ∙ k.session;
  replied = reply ∙ k.replied;
  closed = file ∙ k.closed;
  above =
      subst (λ n. IsAbove n t.requests) (sym (length-snoc before g))
        (subst (λ rs. IsAbove (length before + 1) rs) (sym requests)
          (IsAbove-add (length before) s.requests k.above));
  orderly = subst IsOrderly (sym requests) k.orderly;
}

-- A reply that has come is not awaited any longer.
pub cleared_own : (id : ℕ) → cleared (some id) id ≡ none
cleared_own id = ground (arith)
