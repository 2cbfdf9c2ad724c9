-- ===== src/HttpServer/Body/Sound.antt =====
-- src/httpserver.cpp: what is true of a connection at any time, and that answers and the body keep it.
use harbour_localsend.Common.{
  ℕ, zero, suc, ◌+◌, ◌≤◌, ◌≡◌, refl, ap, ◌∙◌, inl, inr, arith, Bool, true, false, not, ◌||◌, List,
  [], ◌∷◌, ◌++◌, Option, none, some, is_empty, length, drop, ltb, ◌==◌, if◌then◌else◌, Text, ℤ, pos,
  negsuc, Bool-cases, length-append,
}
use harbour_localsend.HttpServer.Wire.{Wire, Reply, responding, adding}
use harbour_localsend.HttpServer.State.{
  Connection, Outcome, continues, ends, connection_of, fail, respond, write_response, add_header,
  perform_reply, perform_replies, is_connected, closing, ChunkState, chunk_size, chunk_data,
  chunk_crlf, chunk_trailer, chunk_done, Signal, headers_ready, request_ready, closed,
  body_progress, Sent, invitation, final, Phase, reading_headers, reading_body, responded,
  has_responded, max_buffered_body, max_head_size, drain_timeout_ms,
}
use harbour_localsend.HttpServer.Body.{
  Handlers, deliver_into, deliver, finished, finish_body, start_chunk, read_size, close_chunk,
  read_data, read_trailer, chunk_round, go_on, chunk_loop, chunk_rounds, exceeds,
  consume_chunked_body, consume_plain_body, consume_in, consume_body, end_body, missing,
}

abbrev pub bit : Bool → ℕ
bit true = 1
bit false = 0

-- How often a request was handed out, the end of the connection told, and an answer written.
abbrev pub times_ready : List Signal → ℕ
times_ready [] = 0
times_ready (request_ready ∷ signals) = suc (times_ready signals)
times_ready (headers_ready ∷ signals) = times_ready signals
times_ready (closed ∷ signals) = times_ready signals
times_ready (body_progress received total ∷ signals) = times_ready signals

abbrev pub times_closed : List Signal → ℕ
times_closed [] = 0
times_closed (closed ∷ signals) = suc (times_closed signals)
times_closed (headers_ready ∷ signals) = times_closed signals
times_closed (request_ready ∷ signals) = times_closed signals
times_closed (body_progress received total ∷ signals) = times_closed signals

abbrev pub times_answered : List Sent → ℕ
times_answered [] = 0
times_answered (invitation ∷ sent) = times_answered sent
times_answered (final status bytes ∷ sent) = suc (times_answered sent)

-- The bytes counted are those kept, in the sink or in the buffer for the body, and within the limit.
abbrev pub IsStored : Option Text → Text → Option ℕ → ℕ → Type 0
IsStored none body limit received = (length body ≡ received) × (received ≤ max_buffered_body)
IsStored (some written) body limit received =
    (length written ≡ received) × (exceeds received limit ≡ false)

abbrev pub IsSound : Connection → Type 0
IsSound c =
    IsStored c.sink c.body c.max_body_bytes c.body_received
    × (times_ready c.signals ≡ bit c.body_complete)
    × (times_answered c.sent ≤ bit (has_responded c.phase))
    × (times_closed c.signals ≡ bit c.closed_emitted)
    × (bit c.closed_emitted ≤ bit (has_responded c.phase))

-- The head has been read, or the request was refused before.
abbrev pub has_begun : Phase → Bool
has_begun reading_headers = false
has_begun reading_body = true
has_begun responded = true

abbrev pub IsRead : Connection → Type 0
IsRead c = IsSound c × (has_begun c.phase ≡ true)

abbrev pub Each : (Connection → Type 0) → Outcome → Type 0
Each P (continues c) = P c
Each P (ends c) = P c

over_begun : (p : Phase) → has_responded p ≡ true → has_begun p ≡ true
over_begun reading_headers h = cc
over_begun reading_body h = refl
over_begun responded h = refl

pub either : (b : Bool) (c d : Connection) → IsRead c → IsRead d → IsRead (if b then c else d)
either true c d k l = k
either false c d k l = l

module _ (w : Wire) where
  -- The three ways in which an answer leaves a connection that was not answered.
  written :
      (status : ℕ) (bytes : Text) (c : Connection)
      → IsSound c
      → has_responded c.phase ≡ false
      → IsRead (write_response w (final status bytes) c)
  written status bytes c (s, r, a, e, d) now = go (is_connected c.socket) c.body_complete
    where
      go :
          (up whole : Bool)
          → IsRead (
              if not up
              then record c { phase = responded; idle_running = false }
              else if whole
              then record c {
                phase = responded;
                idle_running = false;
                sent = final status bytes ∷ c.sent;
                socket = closing;
              }
              else record c {
                phase = responded;
                idle_interval = drain_timeout_ms;
                idle_running = true;
                sent = final status bytes ∷ c.sent;
              })
      go false whole = ((s, r, omega (arith, a, ap bit now), e, omega (arith, d, ap bit now)), refl)
      go true true = ((s, r, omega (arith, a, ap bit now), e, omega (arith, d, ap bit now)), refl)
      go true false = ((s, r, omega (arith, a, ap bit now), e, omega (arith, d, ap bit now)), refl)

  pub respond-IsRead :
      (status : ℕ) (payload kind : Text) (c : Connection)
      → IsSound c
      → IsRead (respond w status payload kind c)
  unfolding respond
  respond-IsRead status payload kind c k = elim (Bool-cases (has_responded c.phase)) [
    | inl over ↦ rw over (k, over_begun c.phase over)
    | inr now ↦ rw now (written status _ c k now)
  ]

  fail-IsRead : (status : ℕ) (c : Connection) → IsSound c → IsRead (fail w status c)
  fail-IsRead status c = respond-IsRead status [] _ c

  pub perform_reply-IsSound :
      (r : Reply) (c : Connection) → IsSound c → IsSound (perform_reply w r c)
  unfolding add_header
  perform_reply-IsSound (responding status payload kind) c k =
      (respond-IsRead status payload kind c k).0
  perform_reply-IsSound (adding name value) c k = k

  pub perform_reply-IsRead : (r : Reply) (c : Connection) → IsRead c → IsRead (perform_reply w r c)
  unfolding add_header
  perform_reply-IsRead (responding status payload kind) c k =
      respond-IsRead status payload kind c k.0
  perform_reply-IsRead (adding name value) c k = k

  pub perform_replies-IsRead :
      (rs : List Reply) (c : Connection) → IsRead c → IsRead (perform_replies w rs c)
  unfolding perform_replies
  perform_replies-IsRead [] c k = k
  perform_replies-IsRead (r ∷ rs) c k =
      perform_replies-IsRead rs (perform_reply w r c) (perform_reply-IsRead r c k)

  module _ (h : Handlers) where
    deliver_into-IsRead :
        (o : Option Text) (block : Text) (c : Connection)
        → c.sink ≡ o
        → IsRead c
        → Each IsRead (deliver_into w h o block c)
    deliver_into-IsRead none block c e ((s, r, a, k, d), b) =
        elim (Bool-cases (ltb max_buffered_body (length c.body + length block))) [
          | inl long ↦ rw long (fail-IsRead 413 c (s, r, a, k, d))
          | inr short ↦ rw short ((rw e (fits (rw e at s) short), r, a, k, d), b)
        ]
      where
        fits :
            (length c.body ≡ c.body_received) × (c.body_received ≤ max_buffered_body)
            → ltb max_buffered_body (length c.body + length block) ≡ false
            → (length (c.body ++ block) ≡ c.body_received + length block)
              × (c.body_received + length block ≤ max_buffered_body)
        fits (same, within) short = (omega (arith, length-append c.body block), ground arith)
    deliver_into-IsRead (some t) block c e ((s, r, a, k, d), b) =
        elim (Bool-cases (exceeds (c.body_received + length block) c.max_body_bytes)) [
          | inl long ↦ rw long (fail-IsRead 413 c (s, r, a, k, d))
          | inr short ↦ rw short (elim (Bool-cases (w.takes t block)) [
            | inl taken ↦
                rw taken
                  (((omega (arith, length-append t block, (rw e at s).0), short), r, a, k, d), b)
            | inr full ↦ rw full (fail-IsRead 500 c (s, r, a, k, d))
          ])
        ]

    deliver-IsRead : (block : Text) (c : Connection) → IsRead c → Each IsRead (deliver w h block c)
    unfolding deliver
    deliver-IsRead block c k = elim (Bool-cases (is_empty block)) [
      | inl empty ↦ rw empty k
      | inr full ↦ rw full (deliver_into-IsRead c.sink block c refl k)
    ]

    finish_body-IsRead : (c : Connection) → IsRead c → IsRead (finish_body w h c)
    unfolding finish_body
    finish_body-IsRead c ((s, r, a, k, d), b) = go c.body_complete refl
      where
        go :
            (done : Bool)
            → c.body_complete ≡ done
            → IsRead (
                if done
                then c
                else perform_replies w (h.on_request_ready (finished w h c)) (finished w h c))
        go true e = ((s, r, a, k, d), b)
        go false e =
            perform_replies-IsRead _ (finished w h c) ((s, ap suc (r ∙ ap bit e), a, k, d), b)

    start_chunk-IsRead :
        (o : Option ℤ) (c : Connection) → IsRead c → Each IsRead (start_chunk w h o c)
    start_chunk-IsRead none c k = fail-IsRead 400 _ k.0
    start_chunk-IsRead (some (negsuc n)) c k = fail-IsRead 400 _ k.0
    start_chunk-IsRead (some (pos zero)) c k = k
    start_chunk-IsRead (some (pos (suc n))) c k = k

    read_size-IsRead : (o : Option ℕ) (c : Connection) → IsRead c → Each IsRead (read_size w h o c)
    read_size-IsRead none c k = elim (Bool-cases (ltb max_head_size (length c.buffer))) [
      | inl long ↦ rw long (fail-IsRead 400 c k.0)
      | inr short ↦ rw short k
    ]
    read_size-IsRead (some i) c k =
        start_chunk-IsRead _ (record c { buffer = drop (i + 2) c.buffer }) k

    close_chunk-IsRead : (o : Outcome) → Each IsRead o → Each IsRead (close_chunk w h o)
    close_chunk-IsRead (continues c) k = elim (Bool-cases (c.chunk_remaining == 0)) [
      | inl empty ↦ rw empty k
      | inr more ↦ rw more k
    ]
    close_chunk-IsRead (ends c) k = k

    read_data-IsRead : (c : Connection) → IsRead c → Each IsRead (read_data w h c)
    unfolding read_data
    read_data-IsRead c k = elim (Bool-cases (is_empty c.buffer)) [
      | inl empty ↦ rw empty k
      | inr full ↦ rw full (close_chunk-IsRead _ (deliver-IsRead _ _ k))
    ]

    read_trailer-IsRead :
        (o : Option ℕ) (c : Connection) → IsRead c → Each IsRead (read_trailer w h o c)
    read_trailer-IsRead none c k = k
    read_trailer-IsRead (some eol) c k =
        elim (Bool-cases (ltb max_head_size (c.trailer_bytes + (eol + 2)))) [
          | inl long ↦ rw long (fail-IsRead 431 _ k.0)
          | inr short ↦ rw short (elim (Bool-cases (eol == 0)) [
            | inl blank ↦ rw blank (finish_body-IsRead _ k)
            | inr more ↦ rw more k
          ])
        ]

    chunk_round-IsRead :
        (state : ChunkState) (c : Connection) → IsRead c → Each IsRead (chunk_round w h state c)
    chunk_round-IsRead chunk_size c k = read_size-IsRead _ c k
    chunk_round-IsRead chunk_data c k = read_data-IsRead c k
    chunk_round-IsRead chunk_crlf c k = elim (Bool-cases (ltb (length c.buffer) 2)) [
      | inl short ↦ rw short k
      | inr enough ↦ rw enough k
    ]
    chunk_round-IsRead chunk_trailer c k = read_trailer-IsRead _ c k
    chunk_round-IsRead chunk_done c k = k

    go_on-IsRead :
        (loop : Connection → Outcome) (o : Outcome)
        → ((c : Connection) → IsRead c → Each IsRead (loop c))
        → Each IsRead o
        → Each IsRead (go_on w h loop o)
    go_on-IsRead loop (continues c) f k = f c k
    go_on-IsRead loop (ends c) f k = k

    chunk_loop-IsRead : (fuel : ℕ) (c : Connection) → IsRead c → Each IsRead (chunk_loop w h fuel c)
    unfolding chunk_loop
    chunk_loop-IsRead zero c k = k
    chunk_loop-IsRead (suc fuel) c k =
        go_on-IsRead _ _ (chunk_loop-IsRead fuel) (chunk_round-IsRead c.chunk_state c k)

    connection_of-IsRead : (o : Outcome) → Each IsRead o → IsRead (connection_of o)
    connection_of-IsRead (continues c) k = k
    connection_of-IsRead (ends c) k = k

    end_body-IsRead : (o : Outcome) → Each IsRead o → IsRead (end_body w h o)
    end_body-IsRead (continues c) k =
        elim (Bool-cases (missing c.content_length c.body_received == 0)) [
          | inl whole ↦ rw whole (finish_body-IsRead c k)
          | inr part ↦ rw part k
        ]
    end_body-IsRead (ends c) k = k

    consume_plain_body-IsRead : (c : Connection) → IsRead c → IsRead (consume_plain_body w h c)
    unfolding consume_plain_body
    consume_plain_body-IsRead c k =
        elim (Bool-cases (missing c.content_length c.body_received == 0 || is_empty c.buffer)) [
          | inl still ↦ rw still (end_body-IsRead (continues c) k)
          | inr some_left ↦ rw some_left (end_body-IsRead _ (deliver-IsRead _ _ k))
        ]

    consume_in-IsRead : (p : Phase) (c : Connection) → IsRead c → IsRead (consume_in w h p c)
    unfolding consume_chunked_body
    consume_in-IsRead reading_headers c k = k
    consume_in-IsRead responded c k = k
    consume_in-IsRead reading_body c k = either c.body_complete c _ k (
        either c.chunked (consume_chunked_body w h c) (consume_plain_body w h c)
          (connection_of-IsRead _ (chunk_loop-IsRead (chunk_rounds c.buffer) c k))
          (consume_plain_body-IsRead c k))

    pub consume_body-IsRead : (c : Connection) → IsRead c → IsRead (consume_body w h c)
    unfolding consume_body
    consume_body-IsRead c k = consume_in-IsRead c.phase c k
