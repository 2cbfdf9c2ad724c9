-- ===== src/HttpServer/Body/Rounds.antt =====
-- src/httpserver.cpp, consumeChunkedBody: its loop ends.
use harbour_localsend.Common.{
  ℕ, zero, suc, ◌+◌, ◌-◌, ◌*◌, ◌≤◌, ◌<◌, ◌≡◌, refl, inl, inr, arith, false, [], ◌∷◌, Option, none,
  some, is_empty, length, take, drop, min, ◌==◌, if◌then◌else◌, Text, ℤ, pos, negsuc, Bool-cases,
  Option-cases, length-drop,
}
use harbour_localsend.HttpServer.Wire.{Wire, index_of, crlf, index_of-le}
use harbour_localsend.HttpServer.State.{
  Connection, Outcome, continues, ends, ChunkState, chunk_size, chunk_data, chunk_crlf,
  chunk_trailer, chunk_done,
}
use harbour_localsend.HttpServer.Body.{
  Handlers, deliver_into, deliver, start_chunk, read_size, close_chunk, read_data, chunk_round,
  go_on, chunk_loop, chunk_rounds,
}

abbrev pub weight : ChunkState → ℕ
weight chunk_data = 1
weight _ = 0

-- What a round makes smaller.
abbrev pub work : Connection → ℕ
work c = length c.buffer * 2 + weight c.chunk_state

-- What holds of the connection of an outcome, where the loop goes on.
abbrev pub Going : (Connection → Type 0) → Outcome → Type 0
Going P (continues d) = P d
Going P (ends d) = Unit

-- The loop goes on with less than `n` to do.
abbrev pub Under : ℕ → Outcome → Type 0
Under n (continues d) = work d < n
Under n (ends d) = Unit

widen : (o : Outcome) (m n : ℕ) → m ≤ n → Under m o → Under n o
widen (continues d) m n le k = omega arith
widen (ends d) m n le k = tt

filled : (t : Text) → is_empty t ≡ false → 1 ≤ length t
filled [] h = cc
filled (c ∷ t) h = omega arith

module _ (w : Wire) (h : Handlers) where
  abbrev IsFramed : Connection → Connection → Type 0
  IsFramed c d =
      (d.buffer ≡ c.buffer)
      × (d.chunk_state ≡ c.chunk_state)
      × (d.chunk_remaining ≡ c.chunk_remaining)

  deliver-IsFramed : (block : Text) (c : Connection) → Going (IsFramed c) (deliver w h block c)
  unfolding deliver
  deliver-IsFramed block c = elim (Bool-cases (is_empty block)) [
    | inl empty ↦ rw empty (refl, refl, refl)
    | inr full ↦ rw full (into c.sink)
  ]
    where
      into : (o : Option Text) → Going (IsFramed c) (deliver_into w h o block c)
      into none = ground arith
      into (some t) = ground arith

  start_chunk-Under :
      (o : Option ℤ) (c : Connection) → Under (length c.buffer * 2 + 2) (start_chunk w h o c)
  start_chunk-Under none c = tt
  start_chunk-Under (some (negsuc n)) c = tt
  start_chunk-Under (some (pos zero)) c = omega arith
  start_chunk-Under (some (pos (suc n))) c = omega arith

  read_size-Under :
      (o : Option ℕ) (c : Connection)
      → index_of crlf c.buffer ≡ o
      → Under (length c.buffer * 2) (read_size w h o c)
  read_size-Under none c at = tt
  read_size-Under (some i) c at =
      widen _ (length (drop (i + 2) c.buffer) * 2 + 2) (length c.buffer * 2)
        (omega (arith, length-drop (i + 2) c.buffer, index_of-le crlf c.buffer i at))
        (start_chunk-Under _ (record c { buffer = drop (i + 2) c.buffer }))

  -- What a chunk that lost some bytes has left to do.
  abbrev left : Connection → ℕ
  left c = length c.buffer * 2 + (if c.chunk_remaining == 0 then 1 else 2)

  close_chunk-Under :
      (o : Outcome) (c : Connection)
      → c.chunk_state ≡ chunk_data
      → Going (IsFramed c) o
      → Under (left c) (close_chunk w h o)
  close_chunk-Under (continues d) c e (b, s, r) = elim (Bool-cases (d.chunk_remaining == 0)) [
    | inl none_left ↦ rw (none_left, b, ← r) (rw none_left (omega arith))
    | inr some_left ↦ rw (some_left, b, s, e, ← r) (rw some_left (omega arith))
  ]
  close_chunk-Under (ends d) c e k = tt

  read_data-Under : (c : Connection) → c.chunk_state ≡ chunk_data → Under (work c) (read_data w h c)
  unfolding read_data
  read_data-Under c e =
      let count = min c.chunk_remaining (length c.buffer) in
      let cut : Connection = record c {
        buffer = drop count c.buffer;
        chunk_remaining = c.chunk_remaining - count;
      } in
      elim (Bool-cases (is_empty c.buffer)) [
        | inl empty ↦ rw empty tt
        | inr full ↦ rw full (
            widen _ (left cut) (work c)
              (ground (arith, e, filled c.buffer full, length-drop count c.buffer))
              (close_chunk-Under _ cut e (deliver-IsFramed (take count c.buffer) cut)))
      ]

  chunk_round-Under :
      (state : ChunkState) (c : Connection)
      → c.chunk_state ≡ state
      → Under (work c) (chunk_round w h state c)
  chunk_round-Under chunk_size c e =
      widen _ (length c.buffer * 2) (work c) (omega arith)
        (read_size-Under (index_of crlf c.buffer) c refl)
  chunk_round-Under chunk_data c e = read_data-Under c e
  chunk_round-Under chunk_crlf c e = ground (arith, length-drop 2 c.buffer)
  chunk_round-Under chunk_trailer c e = elim (Option-cases (index_of crlf c.buffer)) [
    | inl absent ↦ rw absent tt
    | inr (i, at) ↦
        rw at (ground (arith, e, length-drop (i + 2) c.buffer, index_of-le crlf c.buffer i at))
  ]
  chunk_round-Under chunk_done c e = tt

  loop_ends :
      (fuel : ℕ) (c : Connection)
      → work c < fuel
      → (d : Connection) × (chunk_loop w h fuel c ≡ ends d)
  unfolding chunk_loop
  loop_ends zero c enough = elim enough [ ]
  loop_ends (suc fuel) c enough =
      go (chunk_round w h c.chunk_state c) (loop_ends fuel) (chunk_round-Under c.chunk_state c refl)
    where
      go :
          (o : Outcome)
          → ((d : Connection) → work d < fuel → (e : Connection) × (chunk_loop w h fuel d ≡ ends e))
          → Under (work c) o
          → (d : Connection) × (go_on w h (λ d. chunk_loop w h fuel d) o ≡ ends d)
      go (continues d) rest less = rest d (omega arith)
      go (ends d) rest less = (d, refl)

  -- With the rounds that consume_chunked_body grants, the loop over the chunks reaches a round that
  -- ends it, whatever has arrived and wherever the last read broke off.
  pub chunk_loop-ends :
      (c : Connection) → (d : Connection) × (chunk_loop w h (chunk_rounds c.buffer) c ≡ ends d)
  chunk_loop-ends c = loop_ends (chunk_rounds c.buffer) c (weigh c.chunk_state)
    where
      weigh : (state : ChunkState) → length c.buffer * 2 + weight state < chunk_rounds c.buffer
      weigh chunk_data = omega arith
      weigh chunk_size = omega arith
      weigh chunk_crlf = omega arith
      weigh chunk_trailer = omega arith
      weigh chunk_done = omega arith
