-- ===== src/HttpServer/Events.antt =====
-- src/httpserver.cpp, what the socket and the timers call: onReadyRead, onIdleTimeout,
-- onHeaderDeadline, onDisconnected; and runs of these over time.
pub mod Sound
pub mod Late
use harbour_localsend.Common.{
  ℕ, ◌+◌, Bool, true, false, ◌||◌, List, [], ◌∷◌, ◌++◌, Option, none, some, length, take, drop, ltb,
  if◌then◌else◌, Text, codes, text_eq,
}
use harbour_localsend.HttpServer.Wire.{Wire, Reply, index_of}
use harbour_localsend.HttpServer.State.{
  Connection, Outcome, continues, ends, fail, respond, has_responded, max_head_size, Phase,
  reading_headers, reading_body, responded, headers_ready, closed, invitation, gone, perform_all,
  perform_reply,
}
use harbour_localsend.HttpServer.Head.{parse_head, header}
use harbour_localsend.HttpServer.Body.{Handlers, consume_body}

abbrev pub blank_line : Text
blank_line = 13 ∷ 10 ∷ 13 ∷ 10 ∷ []

abbrev pub is_reading_body : Phase → Bool
is_reading_body reading_headers = false
is_reading_body reading_body = true
is_reading_body responded = false

pub data Event : Type 0 where
  reads : (bytes : Text) → Event
  idles exceeds_deadline disconnects : Event
  replies : Reply → Event

unfoldable pub on_disconnected : Connection → Connection
on_disconnected c = if c.closed_emitted then c else record c {
  closed_emitted = true;
  phase = responded;
  socket = gone;
  signals = closed ∷ c.signals;
}

module _ (w : Wire) (h : Handlers) where
  open w use {to_lower}
  open h use {on_headers_ready}

  -- The body of a request that a handler took.
  abbrev pub read_on : Connection → Connection
  read_on c =
      if text_eq (to_lower (header (codes "expect") c)) (codes "100-continue")
      then consume_body w h (record c { sent = invitation ∷ c.sent })
      else consume_body w h c

  abbrev pub hand_out : Connection → Connection
  hand_out c =
      let handled =
        perform_all w (on_headers_ready (record c { signals = headers_ready ∷ c.signals }))
          (record c { signals = headers_ready ∷ c.signals }) in
      if is_reading_body handled.phase then read_on handled else handled

  -- The head was read.
  abbrev pub begin_body : Outcome → Connection
  begin_body (ends c) = c
  begin_body (continues c) =
      if text_eq c.method (codes "OPTIONS")
      then respond w 204 [] [] (record c { phase = reading_body })
      else hand_out (record c { phase = reading_body })

  abbrev pub read_head : Option ℕ → Connection → Connection
  read_head none c = if ltb max_head_size (length c.buffer) then fail w 431 c else c
  read_head (some end) c =
      begin_body (parse_head w (take end c.buffer) (record c { buffer = drop (end + 4) c.buffer }))

  abbrev pub read_buffer : Phase → Connection → Connection
  read_buffer reading_headers c = read_head (index_of blank_line c.buffer) c
  read_buffer reading_body c = consume_body w h c
  read_buffer responded c = c

  -- `bytes` is what readAll hands over; no limit on it is taken from the socket's read buffer.
  unfoldable pub on_ready_read : Text → Connection → Connection
  on_ready_read bytes c =
      if has_responded c.phase || c.body_complete
      then record c { idle_running = true }
      else read_buffer c.phase (record c { idle_running = true; buffer = c.buffer ++ bytes })

  -- `abort` closes the socket at once, which calls onDisconnected.
  unfoldable pub on_idle_timeout : Connection → Connection
  on_idle_timeout c =
      if has_responded c.phase
      then on_disconnected (record c { idle_running = false; socket = gone })
      else fail w 408 (record c { idle_running = false })

  abbrev pub expire : Phase → Connection → Connection
  expire reading_headers c = fail w 408 c
  expire reading_body c = c
  expire responded c = c

  unfoldable pub on_header_deadline : Connection → Connection
  on_header_deadline c = expire c.phase (record c { deadline_running = false })

  abbrev pub step : Event → Connection → Connection
  step (reads bytes) c = on_ready_read bytes c
  step idles c = on_idle_timeout c
  step exceeds_deadline c = on_header_deadline c
  step disconnects c = on_disconnected c
  step (replies r) c = perform_reply w r c

  unfoldable pub run : List Event → Connection → Connection
  run [] c = c
  run (e ∷ events) c = run events (step e c)
