-- ===== src/ReceiveService/Machine/Answer.antt =====
-- src/receiveservice.cpp against the diagram: the end of a session, and the answers to a request that
-- waits.
use harbour_localsend.Common.{
  ℕ, ◌+◌, ◌≡◌, refl, sym, ap, ◌∙◌, true, false, not, ◌&&◌, [], Option, none, some, is_empty, Text,
  subst,
}
use harbour_localsend.Platform.{Platform}
use harbour_localsend.TransferModel.{cancelled, set_state}
use harbour_localsend.ReceiveService.State.{Service, Pending, Env, Answer, answer, respond, is_some}
use harbour_localsend.ReceiveService.Finish.{
  Ending, finish_session, end_session, close_uploads, answer_pending, release_pending,
}
use harbour_localsend.ReceiveService.Finish.Ended.{finish_session-IsEnded}
use harbour_localsend.ReceiveService.Prepare.{
  accept, accept_in, accept_pending, decline, decline_pending, time_out_pending, on_accept_timeout,
  prepare_directory,
}
use harbour_localsend.ReceiveService.Machine.{Event, accepts, declines, times_out}
use harbour_localsend.ReceiveService.Machine.Diagram.{Mode, idle, waiting, receiving, Move, IsIn}
use harbour_localsend.ReceiveService.Machine.Frame.{
  IsHeld, IsKept, pick_true, pick_false, answer-IsKept, issue_tokens-session_id,
}

-- A step of the diagram that the service follows.
abbrev pub Follows : Event → Mode → Service → Type 0
Follows event m t = (n : Mode) × Move event m n × IsIn n t

pub kept_in : (m : Mode) (s t : Service) → IsIn m s → IsKept s t → IsIn m t
kept_in idle s t (a, b, c, d) ((x, y, z), u) = (x ∙ a, y ∙ b, u c, z ∙ d)
kept_in waiting s t (a, b, c, d) ((x, y, z), u) = (x ∙ a, y ∙ b, u c, ap is_some z ∙ d)
kept_in receiving s t (a, b) ((x, y, z), u) = (ap is_empty x ∙ a, z ∙ b)

pub held_in : (s t : Service) → IsIn receiving s → IsHeld s t → IsIn receiving t
held_in s t (a, b) (x, y, z) = (ap is_empty x ∙ a, z ∙ b)

pub answered :
    (m : Mode) (conn : ℕ) (a : Answer) (s : Service) → IsIn m s → IsIn m (answer conn a s)
answered m conn a s k = kept_in m s (answer conn a s) k (answer-IsKept conn a s)

-- A request that waits is answered, and nothing is left.
answer_pending-idle :
    (o : Option Pending) (x : Service)
    → is_some o ≡ true
    → (x.session_id ≡ []) × (x.tokens ≡ []) × (x.uploads ≡ [])
    → IsIn idle (answer_pending o x)
unfolding release_pending
answer_pending-idle none x h k = absurd (cc)
answer_pending-idle (some p) x h (a, b, c) =
    let ((u, v, w), z) = answer-IsKept p.conn _ x in (u ∙ a, v ∙ b, z c, refl)

module _ (q : Platform) where
  pub finish_session-idle :
      (ending : Ending) (now : ℕ) (m : Mode) (s : Service)
      → IsIn m s
      → IsIn idle (finish_session q ending now s)
  unfolding finish_session end_session close_uploads
  finish_session-idle ending now idle s (a, b, c, d) =
      pick_true (IsIn idle) (is_empty s.session_id && not (is_some s.pending)) s _ (rw (a, d) refl)
        (a, b, c, d)
  finish_session-idle ending now waiting s (a, b, c, d) =
      let quiet : Service = record s { idle_running = false; accept_running = false } in
      let closed = close_uploads s.uploads now quiet in
      pick_false (IsIn idle) (is_empty s.session_id && not (is_some s.pending)) s _ (rw (a, d) refl)
        (pick_true (IsIn idle) (is_empty s.session_id)
          (record (answer_pending s.pending closed) {
            transfer = set_state cancelled [] now (answer_pending s.pending closed).transfer;
          })
          _ (ap is_empty a)
          (answer_pending-idle s.pending closed d (
            subst
              (λ us.
                let x = close_uploads us now quiet in
                (x.session_id ≡ []) × (x.tokens ≡ []) × (x.uploads ≡ []))
              (sym c) (a, b, refl))))
  finish_session-idle ending now receiving s (a, b) =
      let ended = finish_session-IsEnded q ending now s a in
      (ended.session_id, ended.tokens, ended.uploads, ended.pending)

  module _ (e : Env) (has_tokens : (n : ℕ) → is_empty (e.random n) ≡ false) where
    -- What is done with the request that waits is nothing where there is none.
    nothing_waits :
        (f : Option Pending → Service → Service) (m : Mode) (s : Service)
        → f none s ≡ s
        → s.pending ≡ none
        → IsIn m s
        → IsIn m (f s.pending s)
    nothing_waits f m s g d k = subst (IsIn m) (sym (ap (λ p. f p s) d ∙ g)) k

    accept_in-Follows :
        (p : Pending) (o : Option Text) (now : ℕ) (s : Service)
        → IsIn waiting s
        → Follows accepts waiting (accept_in q e p now o s)
    unfolding accept_in release_pending
    accept_in-Follows p none now s k =
        let (a, b, c, d) = answered waiting p.conn _ s k in
        (idle, Move.grants_nothing, (a, b, c, refl))
    accept_in-Follows p (some directory) now s k = (
      receiving,
      Move.grants,
      (
        ap is_empty (
              (answer-IsKept p.conn _ _).0.0
              ∙ issue_tokens-session_id q e 0 s.transfer.files (s.drawn + 1) _)
            ∙ has_tokens s.drawn,
        refl,
      ),
    )

    pub accept-Follows :
        (now : ℕ) (m : Mode) (s : Service) → IsIn m s → Follows accepts m (accept q e now s)
    unfolding accept
    accept-Follows now idle s k =
        (idle, Move.stays, nothing_waits (accept_pending q e now) idle s refl k.3 k)
    accept-Follows now receiving s k =
        (receiving, Move.stays, nothing_waits (accept_pending q e now) receiving s refl k.1 k)
    accept-Follows now waiting s k = go s.pending k.3
      where
        go :
            (o : Option Pending)
            → is_some o ≡ true
            → Follows accepts waiting (accept_pending q e now o s)
        go none h = absurd (cc)
        go (some p) h = accept_in-Follows p (prepare_directory q e s) now s k

    -- A refusal of the request that waits.
    refused :
        (conn : ℕ) (s : Service) → IsIn waiting s → IsIn idle (release_pending (respond conn 403 s))
    unfolding release_pending
    refused conn s k = let (a, b, c, d) = answered waiting conn _ s k in (a, b, c, refl)

    pub decline-Follows :
        (now : ℕ) (m : Mode) (s : Service) → IsIn m s → Follows declines m (decline q e now s)
    unfolding decline
    decline-Follows now idle s k =
        (idle, Move.stays, nothing_waits (decline_pending q e now) idle s refl k.3 k)
    decline-Follows now receiving s k =
        (receiving, Move.stays, nothing_waits (decline_pending q e now) receiving s refl k.1 k)
    decline-Follows now waiting s k = go s.pending k.3
      where
        go :
            (o : Option Pending)
            → is_some o ≡ true
            → Follows declines waiting (decline_pending q e now o s)
        go none h = absurd (cc)
        go (some p) h = (idle, Move.refuses, refused p.conn s k)

    pub time_out-Follows :
        (now : ℕ) (m : Mode) (s : Service)
        → IsIn m s
        → Follows times_out m (on_accept_timeout q e now s)
    unfolding on_accept_timeout
    time_out-Follows now idle s k = (
      idle,
      Move.stays,
      nothing_waits (time_out_pending q e now) idle (record s { accept_running = false }) refl k.3
          k,
    )
    time_out-Follows now receiving s k = (
      receiving,
      Move.stays,
      nothing_waits (time_out_pending q e now) receiving (record s { accept_running = false }) refl
          k.1 k,
    )
    time_out-Follows now waiting s k = go s.pending k.3
      where
        go :
            (o : Option Pending)
            → is_some o ≡ true
            → Follows times_out waiting
                (time_out_pending q e now o (record s { accept_running = false }))
        go none h = absurd (cc)
        go (some p) h = (idle, Move.expires, refused p.conn (record s { accept_running = false }) k)
