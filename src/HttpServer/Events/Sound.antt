-- ===== src/HttpServer/Events/Sound.antt =====
-- src/httpserver.cpp: what is true of a connection whatever the socket, the timers and the handlers
-- do, in any order.
use harbour_localsend.Common.{
  ℕ, zero, suc, ◌+◌, ◌≤◌, ◌≡◌, refl, sym, ap, ◌∙◌, inl, inr, arith, Bool, true, false, ◌||◌, List,
  [], ◌∷◌, ◌++◌, Option, none, some, length, take, drop, ltb, if◌then◌else◌, Text, codes, text_eq,
  Bool-cases, find,
}
use harbour_localsend.HttpServer.Wire.{
  Wire, responding, adding, Action, replying, streaming, index_of,
}
use harbour_localsend.HttpServer.State.{
  Connection, Outcome, continues, ends, fail, respond, add_header, stream_body_to, is_past, perform,
  perform_all, has_responded, Phase, reading_headers, reading_body, responded, headers_ready,
  closed, gone, invitation, new_connection, max_head_size,
}
use harbour_localsend.HttpServer.Head.{
  add_field, read_field, read_line, read_lines, measure_body, read_target, read_rest, read_request,
  parse_lines, parse_head, disagrees, found, header,
}
use harbour_localsend.HttpServer.Body.{Handlers, consume_body}
use harbour_localsend.HttpServer.Body.Sound.{
  IsSound, IsRead, IsStored, has_begun, either, respond-IsRead, consume_body-IsRead, bit,
}
use harbour_localsend.HttpServer.Events.{
  Event, reads, idles, exceeds_deadline, disconnects, replies, on_disconnected, read_on, hand_out,
  begin_body, read_head, read_buffer, on_ready_read, on_idle_timeout, expire, on_header_deadline,
  step, run, is_reading_body,
}

-- Before the head is read nothing of the body was.
abbrev pub IsFresh : Connection → Type 0
IsFresh c = IsSound c × (c.body_received ≡ 0) × (has_responded c.phase ≡ false)

abbrev pub IsValid : Connection → Type 0
IsValid c = IsSound c × (has_begun c.phase ≡ false → c.body_received ≡ 0)

abbrev IsParsed : Outcome → Type 0
IsParsed (continues c) = IsFresh c
IsParsed (ends c) = IsRead c

from_read : (c : Connection) → IsRead c → IsValid c
from_read c (k, b) = (k, λ h. absurd (cc))

both_ways : (b : Bool) (c d : Connection) → IsValid c → IsValid d → IsValid (if b then c else d)
both_ways true c d k l = k
both_ways false c d k l = l

bit-le : (b : Bool) → bit b ≤ 1
bit-le true = omega arith
bit-le false = omega arith

module _ (w : Wire) where
  respond-body_received :
      (status : ℕ) (payload kind : Text) (c : Connection)
      → (respond w status payload kind c).body_received ≡ c.body_received
  unfolding respond
  respond-body_received status payload kind c = ground arith

  stream_body_to-IsRead :
      (limit : Option ℕ) (c : Connection)
      → IsRead c
      → c.body_received ≡ 0
      → IsRead (stream_body_to w limit c) × ((stream_body_to w limit c).body_received ≡ 0)
  unfolding stream_body_to
  stream_body_to-IsRead limit c ((s, r, a, e, d), b) none_yet =
      elim (Bool-cases (is_past c.content_length limit)) [
        | inl past ↦ rw past (
          respond-IsRead w 413 [] _ _ (streamed limit, r, a, e, d),
          respond-body_received 413 [] _ _ ∙ none_yet,
        )
        | inr within ↦ rw within (((streamed limit, r, a, e, d), b), none_yet)
      ]
    where
      streamed : (o : Option ℕ) → IsStored (some []) c.body o c.body_received
      streamed none = (sym none_yet, refl)
      streamed (some n) = (sym none_yet, ground (arith, none_yet))

  perform-IsRead :
      (a : Action) (c : Connection)
      → IsRead c
      → c.body_received ≡ 0
      → IsRead (perform w a c) × ((perform w a c).body_received ≡ 0)
  unfolding add_header
  perform-IsRead (replying (responding status payload kind)) c k z =
      (respond-IsRead w status payload kind c k.0, respond-body_received status payload kind c ∙ z)
  perform-IsRead (replying (adding name value)) c k z = (k, z)
  perform-IsRead (streaming limit) c k z = stream_body_to-IsRead limit c k z

  perform_all-IsRead :
      (actions : List Action) (c : Connection)
      → IsRead c
      → c.body_received ≡ 0
      → IsRead (perform_all w actions c)
  unfolding perform_all
  perform_all-IsRead [] c k z = k
  perform_all-IsRead (a ∷ actions) c k z =
      let (l, y) = perform-IsRead a c k z in perform_all-IsRead actions (perform w a c) l y

  add_field-IsParsed :
      (name value : Text) (c : Connection) → IsFresh c → IsParsed (add_field w name value c)
  unfolding add_field
  add_field-IsParsed name value c k = elim (Bool-cases (disagrees (find name c.headers) value)) [
    | inl other ↦ rw other (respond-IsRead w 400 [] _ c k.0)
    | inr same ↦ rw same k
  ]

  read_field-IsParsed :
      (o : Option ℕ) (line : Text) (c : Connection) → IsFresh c → IsParsed (read_field w o line c)
  read_field-IsParsed none line c k = k
  read_field-IsParsed (some zero) line c k = k
  read_field-IsParsed (some (suc i)) line c k = add_field-IsParsed _ _ c k

  read_lines-IsParsed :
      (lines : List Text) (c : Connection) → IsFresh c → IsParsed (read_lines w lines c)
  unfolding read_lines read_line
  read_lines-IsParsed [] c k = k
  read_lines-IsParsed (line ∷ rest) c k =
      go (read_line w line c) (read_lines-IsParsed rest) (read_field-IsParsed _ _ c k)
    where
      go :
          (o : Outcome)
          → ((d : Connection) → IsFresh d → IsParsed (read_lines w rest d))
          → IsParsed o
          → IsParsed (elim o [ continues d ↦ read_lines w rest d | ends d ↦ ends d ])
      go (continues d) f k = f d k
      go (ends d) f k = k

  read_rest-IsParsed : (o : Outcome) → IsParsed o → IsParsed (read_rest w o)
  unfolding measure_body
  read_rest-IsParsed (continues c) k =
      elim (Bool-cases
        (found (index_of (codes "chunked") (w.to_lower (header (codes "transfer-encoding") c))))) [
          | inl yes_chunked ↦ rw yes_chunked k
          | inr plain ↦ rw plain k
        ]
  read_rest-IsParsed (ends c) k = k

  read_request-IsParsed :
      (words rest : List Text) (c : Connection) → IsFresh c → IsParsed (read_request w words rest c)
  read_request-IsParsed [] rest c k = respond-IsRead w 400 [] _ c k.0
  read_request-IsParsed (verb ∷ []) rest c k = respond-IsRead w 400 [] _ c k.0
  read_request-IsParsed (verb ∷ target ∷ more) rest c k =
      read_rest-IsParsed _ (read_lines-IsParsed rest (read_target w verb target c) k)

  parse_lines-IsParsed :
      (lines : List Text) (c : Connection) → IsFresh c → IsParsed (parse_lines w lines c)
  parse_lines-IsParsed [] c k = respond-IsRead w 400 [] _ c k.0
  parse_lines-IsParsed (first ∷ rest) c k = read_request-IsParsed _ rest c k

  parse_head-IsParsed : (head : Text) (c : Connection) → IsFresh c → IsParsed (parse_head w head c)
  unfolding parse_head
  parse_head-IsParsed head c k = parse_lines-IsParsed _ c k

  module _ (h : Handlers) where
    read_on-IsRead : (c : Connection) → IsRead c → IsRead (read_on w h c)
    read_on-IsRead c k =
        either (text_eq (w.to_lower (header (codes "expect") c)) (codes "100-continue"))
          (consume_body w h (record c { sent = invitation ∷ c.sent })) (consume_body w h c)
          (consume_body-IsRead w h _ k) (consume_body-IsRead w h c k)

    hand_out-IsRead : (c : Connection) → IsRead c → c.body_received ≡ 0 → IsRead (hand_out w h c)
    hand_out-IsRead c k z =
        let told : Connection = record c { signals = headers_ready ∷ c.signals } in
        let l = perform_all-IsRead (h.on_headers_ready told) told k z in
        either (is_reading_body (perform_all w (h.on_headers_ready told) told).phase) _ _
          (read_on-IsRead _ l) l

    begin_body-IsRead : (o : Outcome) → IsParsed o → IsRead (begin_body w h o)
    begin_body-IsRead (ends c) k = k
    begin_body-IsRead (continues c) ((s, r, a, e, d), z, now) =
        let opened : IsSound (record c { phase = reading_body }) =
          (s, r, omega (arith, ap bit now), e, omega (arith, ap bit now)) in
        either (text_eq c.method (codes "OPTIONS")) _ _ (respond-IsRead w 204 [] [] _ opened)
          (hand_out-IsRead _ (opened, refl) z)

    read_head-IsValid : (o : Option ℕ) (c : Connection) → IsFresh c → IsValid (read_head w h o c)
    read_head-IsValid none c k =
        both_ways (ltb max_head_size (length c.buffer)) (fail w 431 c) c
          (from_read (fail w 431 c) (respond-IsRead w 431 [] _ c k.0)) (k.0, λ h. k.1)
    read_head-IsValid (some end) c k =
        let parsed =
          parse_head w (take end c.buffer) (record c { buffer = drop (end + 4) c.buffer }) in
        from_read (begin_body w h parsed) (begin_body-IsRead parsed (parse_head-IsParsed _ _ k))

    read_buffer-IsValid :
        (p : Phase) (c : Connection) → c.phase ≡ p → IsValid c → IsValid (read_buffer w h p c)
    read_buffer-IsValid reading_headers c e (k, z) =
        read_head-IsValid _ c (k, z (ap has_begun e), ap has_responded e)
    read_buffer-IsValid reading_body c e (k, z) =
        from_read (consume_body w h c) (consume_body-IsRead w h c (k, ap has_begun e))
    read_buffer-IsValid responded c e k = k

    on_ready_read-IsValid :
        (bytes : Text) (c : Connection) → IsValid c → IsValid (on_ready_read w h bytes c)
    unfolding on_ready_read
    on_ready_read-IsValid bytes c k =
        let fed : Connection = record c { idle_running = true; buffer = c.buffer ++ bytes } in
        both_ways (has_responded c.phase || c.body_complete) (record c { idle_running = true })
          (read_buffer w h c.phase fed) k (read_buffer-IsValid c.phase fed refl k)

    on_disconnected-IsValid : (c : Connection) → IsValid c → IsValid (on_disconnected c)
    unfolding on_disconnected
    on_disconnected-IsValid c ((s, r, a, e, d), z) = go c.closed_emitted refl
      where
        go :
            (told : Bool)
            → c.closed_emitted ≡ told
            → IsValid (
                if told then c else record c {
                  closed_emitted = true;
                  phase = responded;
                  socket = gone;
                  signals = closed ∷ c.signals;
                })
        go true t = ((s, r, a, e, d), z)
        go false t = (
          (
            s,
            r,
            omega (arith, a, bit-le (has_responded c.phase)),
            ap suc (e ∙ ap bit t),
            omega arith,
          ),
          λ b. absurd (cc),
        )

    on_idle_timeout-IsValid : (c : Connection) → IsValid c → IsValid (on_idle_timeout w h c)
    unfolding on_idle_timeout
    on_idle_timeout-IsValid c k =
        let over : Connection = record c { idle_running = false; socket = gone } in
        let slow : Connection = record c { idle_running = false } in
        both_ways (has_responded c.phase) (on_disconnected over) (fail w 408 slow)
          (on_disconnected-IsValid over k)
          (from_read (fail w 408 slow) (respond-IsRead w 408 [] _ slow k.0))

    expire-IsValid : (p : Phase) (c : Connection) → IsValid c → IsValid (expire w h p c)
    expire-IsValid reading_headers c k = from_read (fail w 408 c) (respond-IsRead w 408 [] _ c k.0)
    expire-IsValid reading_body c k = k
    expire-IsValid responded c k = k

    step-IsValid : (e : Event) (c : Connection) → IsValid c → IsValid (step w h e c)
    unfolding on_header_deadline add_header
    step-IsValid (reads bytes) c k = on_ready_read-IsValid bytes c k
    step-IsValid idles c k = on_idle_timeout-IsValid c k
    step-IsValid exceeds_deadline c k = expire-IsValid c.phase _ k
    step-IsValid disconnects c k = on_disconnected-IsValid c k
    step-IsValid (replies (responding status payload kind)) c k =
        from_read (respond w status payload kind c) (respond-IsRead w status payload kind c k.0)
    step-IsValid (replies (adding name value)) c k = k

    run-IsValid : (events : List Event) (c : Connection) → IsValid c → IsValid (run w h events c)
    unfolding run
    run-IsValid [] c k = k
    run-IsValid (e ∷ events) c k = run-IsValid events (step w h e c) (step-IsValid e c k)

    -- Whatever arrives on a connection and however the timers and the handlers act on it, in any
    -- order: as many bytes are counted as were kept, and no more than the limit of its sink, where it
    -- has one with a limit, or than the 16 MiB of a body in memory, where it has no sink; the request
    -- is handed out once if its body was completed and else not at all; at most one answer is
    -- written, and none before the connection counts as responded; and its end is told once at most,
    -- and then it counts as responded.
    pub run-IsSound : (events : List Event) → IsSound (run w h events new_connection)
    run-IsSound events =
        (run-IsValid events new_connection
          (((refl, omega arith), refl, omega arith, refl, omega arith), λ h. refl)).0
