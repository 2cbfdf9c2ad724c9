-- ===== src/HttpServer/Body.antt =====
-- src/httpserver.cpp, the body of a request: deliver, consumeBody, consumeChunkedBody, finishBody.
pub mod Rounds
pub mod Sound
pub mod Lines
pub mod Chunks
use harbour_localsend.Common.{
  ℕ, zero, suc, ◌+◌, ◌-◌, ◌*◌, Bool, true, false, not, ◌||◌, List, [], ◌∷◌, ◌++◌, Option, none,
  some, is_empty, length, take, drop, min, ltb, ◌==◌, if◌then◌else◌, Text, ℤ, pos, negsuc,
}
use harbour_localsend.HttpServer.Wire.{Wire, Reply, Action, index_of, crlf}
use harbour_localsend.HttpServer.State.{
  Connection, Phase, Outcome, continues, ends, connection_of, fail, max_head_size,
  max_buffered_body, reading_headers, reading_body, responded, ChunkState, chunk_size, chunk_data,
  chunk_crlf, chunk_trailer, chunk_done, request_ready, body_progress, perform_replies,
}

-- What is connected to the two signals that hand out a request.
pub record Handlers : Type 0 where
  pub on_headers_ready : Connection → List Action
  pub on_request_ready : Connection → List Reply

-- `m_maxBodyBytes >= 0 && received > m_maxBodyBytes`
abbrev pub exceeds : ℕ → Option ℕ → Bool
exceeds received none = false
exceeds received (some limit) = ltb limit received

-- The bytes are counted, and their progress told.
abbrev pub count_bytes : Text → Connection → Connection
count_bytes block c = record c {
  body_received = c.body_received + length block;
  signals = body_progress (c.body_received + length block) c.content_length ∷ c.signals;
}

-- What of a declared length is still missing; a chunked body (-1) misses nothing.
abbrev pub missing : ℤ → ℕ → ℕ
missing (pos n) received = n - received
missing (negsuc n) received = 0

-- The part of a size line before its extension.
abbrev pub before_mark : Option ℕ → Text → Text
before_mark none line = line
before_mark (some i) line = take i line

-- The rounds that the loop over the chunks has at most, see Body/Rounds.
abbrev pub chunk_rounds : Text → ℕ
chunk_rounds buffer = suc (length buffer * 2 + 1)

module _ (w : Wire) (h : Handlers) where
  open w use {trimmed, to_hexadecimal, takes}
  open h use {on_request_ready}

  abbrev pub deliver_into : Option Text → Text → Connection → Outcome
  deliver_into (some written) block c =
      if exceeds (c.body_received + length block) c.max_body_bytes
      then ends (fail w 413 c)
      else if not (takes written block)
      then ends (fail w 500 c)
      else continues (count_bytes block (record c { sink = some (written ++ block) }))
  deliver_into none block c =
      if ltb max_buffered_body (length c.body + length block)
      then ends (fail w 413 c)
      else continues (count_bytes block (record c { body = c.body ++ block }))

  unfoldable pub deliver : Text → Connection → Outcome
  deliver block c = if is_empty block then continues c else deliver_into c.sink block c

  abbrev pub finished : Connection → Connection
  finished c = record c {
    body_complete = true;
    idle_running = false;
    buffer = [];
    signals = request_ready ∷ c.signals;
  }

  unfoldable pub finish_body : Connection → Connection
  finish_body c =
      if c.body_complete then c else perform_replies w (on_request_ready (finished c)) (finished c)

  -- `m_chunkRemaining` and what follows from it; a negative size is refused like no number.
  abbrev pub start_chunk : Option ℤ → Connection → Outcome
  start_chunk none c = ends (fail w 400 (record c { chunk_remaining = 0 }))
  start_chunk (some (negsuc n)) c = ends (fail w 400 (record c { chunk_remaining = 0 }))
  start_chunk (some (pos zero)) c =
      continues (record c { chunk_remaining = 0; chunk_state = chunk_trailer })
  start_chunk (some (pos (suc n))) c =
      continues (record c { chunk_remaining = suc n; chunk_state = chunk_data })

  abbrev pub read_size : Option ℕ → Connection → Outcome
  read_size none c = ends (if ltb max_head_size (length c.buffer) then fail w 400 c else c)
  read_size (some eol) c =
      let line = take eol c.buffer in
      start_chunk (to_hexadecimal (trimmed (before_mark (index_of (b';' ∷ []) line) line)))
        (record c { buffer = drop (eol + 2) c.buffer })

  -- The chunk is read to its end before the line break behind it is.
  abbrev pub close_chunk : Outcome → Outcome
  close_chunk (ends c) = ends c
  close_chunk (continues c) =
      continues (if c.chunk_remaining == 0 then record c { chunk_state = chunk_crlf } else c)

  unfoldable pub read_data : Connection → Outcome
  read_data c =
      let count = min c.chunk_remaining (length c.buffer) in
      if is_empty c.buffer
      then ends c
      else close_chunk (
          deliver (take count c.buffer) (record c {
            buffer = drop count c.buffer;
            chunk_remaining = c.chunk_remaining - count;
          }))

  abbrev pub read_trailer : Option ℕ → Connection → Outcome
  read_trailer none c = ends c
  read_trailer (some eol) c =
      let counted : Connection = record c { trailer_bytes = c.trailer_bytes + (eol + 2) } in
      if ltb max_head_size (c.trailer_bytes + (eol + 2))
      then ends (fail w 431 counted)
      else if eol == 0
      then ends (
          finish_body (record counted {
            buffer = drop (eol + 2) c.buffer;
            chunk_state = chunk_done;
            content_length = pos c.body_received;
          }))
      else continues (record counted { buffer = drop (eol + 2) c.buffer })

  -- One round of the loop of consumeChunkedBody.
  abbrev pub chunk_round : ChunkState → Connection → Outcome
  chunk_round chunk_size c = read_size (index_of crlf c.buffer) c
  chunk_round chunk_data c = read_data c
  chunk_round chunk_crlf c =
      if ltb (length c.buffer) 2
      then ends c
      else continues (record c { buffer = drop 2 c.buffer; chunk_state = chunk_size })
  chunk_round chunk_trailer c = read_trailer (index_of crlf c.buffer) c
  chunk_round chunk_done c = ends c

  abbrev pub go_on : (Connection → Outcome) → Outcome → Outcome
  go_on loop (continues c) = loop c
  go_on loop (ends c) = ends c

  unfoldable pub chunk_loop : ℕ → Connection → Outcome
  chunk_loop zero c = continues c
  chunk_loop (suc fuel) c = go_on (λ d. chunk_loop fuel d) (chunk_round c.chunk_state c)

  unfoldable pub consume_chunked_body : Connection → Connection
  consume_chunked_body c = connection_of (chunk_loop (chunk_rounds c.buffer) c)

  abbrev pub end_body : Outcome → Connection
  end_body (ends c) = c
  end_body (continues c) =
      if missing c.content_length c.body_received == 0 then finish_body c else c

  -- A body of a declared length. The loop of the source takes what is missing, or the whole buffer,
  -- in its first round, and has no second one.
  unfoldable pub consume_plain_body : Connection → Connection
  consume_plain_body c =
      let count = min (missing c.content_length c.body_received) (length c.buffer) in
      if missing c.content_length c.body_received == 0 || is_empty c.buffer
      then end_body (continues c)
      else end_body (deliver (take count c.buffer) (record c { buffer = drop count c.buffer }))

  abbrev pub consume_in : Phase → Connection → Connection
  consume_in reading_headers c = c
  consume_in responded c = c
  consume_in reading_body c =
      if c.body_complete
      then c
      else if c.chunked
      then consume_chunked_body c
      else consume_plain_body c

  unfoldable pub consume_body : Connection → Connection
  consume_body c = consume_in c.phase c
