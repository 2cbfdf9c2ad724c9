-- ===== src/HttpServer/Body/Chunks.antt =====
-- src/httpserver.cpp, consumeChunkedBody: a body that was written in chunks is read back.
use harbour_localsend.Common.{
  ℕ, zero, suc, ◌+◌, ◌-◌, ◌≤◌, ◌≡◌, refl, sym, ap, ◌∙◌, arith, true, false, List, [], ◌∷◌, ◌++◌,
  Option, none, some, is_empty, length, take, drop, min, ltb, Text, ℤ, pos, append_assoc,
  append-nil, length-append,
}
use harbour_localsend.HttpServer.Wire.{Reply, responding, adding, Wire, index_of, crlf}
use harbour_localsend.HttpServer.State.{
  perform_replies, respond, add_header, Connection, Outcome, continues, ends, connection_of,
  chunk_size, chunk_data, chunk_crlf, chunk_trailer, chunk_done, max_buffered_body, max_head_size,
}
use harbour_localsend.HttpServer.Body.{
  Handlers, deliver, finished, finish_body, start_chunk, read_size, close_chunk, read_data,
  chunk_round, go_on, chunk_loop, before_mark, count_bytes, consume_chunked_body, chunk_rounds,
}
use harbour_localsend.HttpServer.Body.Rounds.{chunk_loop-ends}
use harbour_localsend.HttpServer.Body.Lines.{
  take-append, drop-append, IsLine, index_of-IsLine, drop_line, if_false,
}

-- A chunk as the sender writes it: its size line and its bytes.
abbrev pub written : List (Text × Text) → Text → Text
written [] last = last ++ (crlf ++ crlf)
written ((line, block) ∷ chunks) last = line ++ (crlf ++ (block ++ (crlf ++ written chunks last)))

abbrev pub joined : List (Text × Text) → Text
joined [] = []
joined ((line, block) ∷ chunks) = block ++ joined chunks

module _ (w : Wire) (h : Handlers) where
  open w use {trimmed, to_hexadecimal}

  -- A size line that says `n`.
  abbrev pub IsSize : Text → ℕ → Type 0
  IsSize line n =
      IsLine line
      × (to_hexadecimal (trimmed (before_mark (index_of (b';' ∷ []) line) line)) ≡ some (pos n))

  abbrev pub IsWritten : List (Text × Text) → Type 0
  IsWritten [] = Unit
  IsWritten ((line, block) ∷ chunks) =
      IsSize line (length block) × (is_empty block ≡ false) × IsWritten chunks

  -- A connection before a chunk.
  abbrev pub before_chunk : Text → Connection → Connection
  before_chunk buffer c = record c { sink = none; chunk_state = chunk_size; buffer = buffer }

  size_round :
      (line rest : Text) (n : ℕ) (c : Connection)
      → IsSize line (suc n)
      → chunk_round w h chunk_size (before_chunk (line ++ (crlf ++ rest)) c)
        ≡ continues
            (record (before_chunk rest c) { chunk_remaining = suc n; chunk_state = chunk_data })
  size_round line rest n c (l, k) =
      let c' = before_chunk (line ++ (crlf ++ rest)) c in
      let size : Text → Option ℤ =
        λ t. to_hexadecimal (trimmed (before_mark (index_of (b';' ∷ []) t) t)) in
      let cut = drop (length line + 2) (line ++ (crlf ++ rest)) in
      ap (λ o. read_size w h o c') (index_of-IsLine line rest l)
      ∙ ap (λ t. start_chunk w h (size t) (before_chunk cut c)) (take-append line (crlf ++ rest))
      ∙ ap (λ o. start_chunk w h o (before_chunk cut c)) k
      ∙ ap
          (λ t.
            continues
              (record (before_chunk t c) { chunk_remaining = suc n; chunk_state = chunk_data }))
          (drop_line line rest)

  data_round :
      (block rest : Text) (c : Connection)
      → is_empty block ≡ false
      → length c.body + length block ≤ max_buffered_body
      → chunk_round w h chunk_data (record (before_chunk (block ++ rest) c) {
        chunk_remaining = length block;
        chunk_state = chunk_data;
      })
        ≡ continues (record (count_bytes block (before_chunk rest c)) {
          body = c.body ++ block;
          chunk_remaining = 0;
          chunk_state = chunk_crlf;
        })
  unfolding read_data deliver
  data_round [] rest c full fits = absurd (cc)
  data_round (b ∷ block) rest c full fits =
      let whole = b ∷ block in
      let reach : Text → ℕ → Connection =
        λ t n. record (before_chunk t c) { chunk_remaining = n; chunk_state = chunk_data } in
      let size = length whole in
      let count : min size (length (whole ++ rest)) ≡ size =
        omega (arith, length-append whole rest) in
      let none_left : size - size ≡ 0 = omega arith in
      ap
        (λ m.
          close_chunk w h
            (deliver w h (take m (whole ++ rest)) (reach (drop m (whole ++ rest)) (size - m))))
        count
      ∙ ap (λ t. close_chunk w h (deliver w h t (reach (drop size (whole ++ rest)) (size - size))))
          (take-append whole rest)
      ∙ ap (λ t. close_chunk w h (deliver w h whole (reach t (size - size))))
          (drop-append whole rest)
      ∙ ap (λ n. close_chunk w h (deliver w h whole (reach rest n))) none_left
      ∙ ap (close_chunk w h)
          (if_false (ltb max_buffered_body (length c.body + size)) _ _ (ground (arith, fits)))

  -- A connection that took a block of the body.
  abbrev pub after_block : Text → Connection → Connection
  after_block block c = record (count_bytes block c) { body = c.body ++ block; chunk_remaining = 0 }

  crlf_round :
      (rest : Text) (c : Connection)
      → chunk_round w h chunk_crlf
          (record (before_chunk (crlf ++ rest) c) { chunk_state = chunk_crlf })
        ≡ continues (before_chunk rest c)
  crlf_round rest c = if_false (ltb (length (crlf ++ rest)) 2) _ _ (ground arith)

  -- Three rounds read a chunk.
  read_chunk :
      (line block rest : Text) (fuel : ℕ) (c : Connection)
      → IsSize line (length block)
      → is_empty block ≡ false
      → length c.body + length block ≤ max_buffered_body
      → chunk_loop w h
          (suc (suc (suc fuel)))
          (before_chunk (line ++ (crlf ++ (block ++ (crlf ++ rest)))) c)
        ≡ chunk_loop w h fuel (before_chunk rest (after_block block c))
  unfolding chunk_loop
  read_chunk line [] rest fuel c k full fits = absurd (cc)
  read_chunk line (b ∷ block) rest fuel c k full fits =
      let whole = b ∷ block in
      ap (go_on w h (λ d. chunk_loop w h (suc (suc fuel)) d))
        (size_round line (whole ++ (crlf ++ rest)) (length block) c k)
      ∙ ap (go_on w h (λ d. chunk_loop w h (suc fuel) d))
          (data_round whole (crlf ++ rest) c full fits)
      ∙ ap (go_on w h (λ d. chunk_loop w h fuel d)) (crlf_round rest (after_block whole c))

  abbrev at_end : Connection → Connection
  at_end c = record c {
    sink = none;
    chunk_remaining = 0;
    trailer_bytes = c.trailer_bytes + 2;
    buffer = [];
    chunk_state = chunk_done;
    content_length = pos c.body_received;
  }

  -- Two more rounds read the last line and the empty trailer.
  read_last :
      (last : Text) (c : Connection)
      → IsSize last 0
      → c.trailer_bytes + 2 ≤ max_head_size
      → chunk_loop w h 2 (before_chunk (last ++ (crlf ++ crlf)) c)
        ≡ ends (finish_body w h (at_end c))
  unfolding chunk_loop index_of
  read_last last c k short =
      let sized : Text → Option ℤ =
        λ t. to_hexadecimal (trimmed (before_mark (index_of (b';' ∷ []) t) t)) in
      let cut = drop (length last + 2) (last ++ (crlf ++ crlf)) in
      let on : Outcome → Outcome = go_on w h (λ d. chunk_loop w h 1 d) in
      let trailing : Text → Connection =
        λ t. record (before_chunk t c) { chunk_remaining = 0; chunk_state = chunk_trailer } in
      ap (λ o. on (read_size w h o (before_chunk (last ++ (crlf ++ crlf)) c)))
        (index_of-IsLine last crlf k.0)
      ∙ ap (λ t. on (start_chunk w h (sized t) (before_chunk cut c)))
          (take-append last (crlf ++ crlf))
      ∙ ap (λ o. on (start_chunk w h o (before_chunk cut c))) k.1
      ∙ ap (λ t. on (continues (trailing t))) (drop_line last crlf)
      ∙ ap (go_on w h (λ d. continues d))
          (if_false (ltb max_head_size (c.trailer_bytes + 2)) _ _ (ground (arith, short)))

  -- The body and whether it is complete, behind the handler's answers.
  perform_replies-body :
      (rs : List Reply) (c : Connection)
      → ((perform_replies w rs c).body ≡ c.body)
        × ((perform_replies w rs c).body_complete ≡ c.body_complete)
  unfolding perform_replies respond add_header
  perform_replies-body [] c = (refl, refl)
  perform_replies-body (responding status payload kind ∷ rs) c =
      let (x, y) = perform_replies-body rs (respond w status payload kind c) in
      (x ∙ ground arith, y ∙ ground arith)
  perform_replies-body (adding name value ∷ rs) c =
      perform_replies-body rs (add_header name value c)

  finish_body-body :
      (c : Connection)
      → c.body_complete ≡ false
      → ((finish_body w h c).body ≡ c.body) × ((finish_body w h c).body_complete ≡ true)
  unfolding finish_body
  finish_body-body c e =
      let first =
        if_false c.body_complete c
          (perform_replies w (h.on_request_ready (finished w h c)) (finished w h c)) e in
      let (x, y) = perform_replies-body (h.on_request_ready (finished w h c)) (finished w h c) in
      (ap (λ d. d.body) first ∙ x, ap (λ d. d.body_complete) first ∙ y)

  abbrev rounds : List (Text × Text) → ℕ
  rounds [] = 2
  rounds (chunk ∷ chunks) = suc (suc (suc (rounds chunks)))

  read_written :
      (chunks : List (Text × Text)) (last : Text) (c : Connection)
      → IsWritten chunks
      → IsSize last 0
      → length c.body + length (joined chunks) ≤ max_buffered_body
      → c.trailer_bytes + 2 ≤ max_head_size
      → c.body_complete ≡ false
      → (d : Connection) × (chunk_loop w h (rounds chunks) (before_chunk (written chunks last) c)
          ≡ ends d)
        × (d.body ≡ c.body ++ joined chunks)
        × (d.body_complete ≡ true)
  read_written [] last c k l fits short unended =
      let (x, y) = finish_body-body (at_end c) unended in
      (finish_body w h (at_end c), read_last last c l short, x ∙ sym (append-nil c.body), y)
  read_written ((line, block) ∷ chunks) last c (k, full, rest) l fits short unended =
      let (d, e, x, y) =
        read_written chunks last (after_block block c) rest l
          (omega (arith, length-append c.body block, length-append block (joined chunks))) short
          unended in
      (
        d,
        read_chunk line block (written chunks last) (rounds chunks) c k full
              (omega (arith, length-append block (joined chunks)))
            ∙ e,
        x ∙ append_assoc c.body block (joined chunks),
        y,
      )

  -- Two runs of the loop that both end, end alike.
  loop_agrees :
      (f g : ℕ) (c d d' : Connection)
      → chunk_loop w h f c ≡ ends d
      → chunk_loop w h g c ≡ ends d'
      → d ≡ d'
  unfolding chunk_loop
  loop_agrees zero g c d d' x y = absurd (cc)
  loop_agrees (suc f) zero c d d' x y = absurd (cc)
  loop_agrees (suc f) (suc g) c d d' x y =
      go (chunk_round w h c.chunk_state c) (loop_agrees f g) x y
    where
      go :
          (o : Outcome)
          → ((a b b' : Connection)
              → chunk_loop w h f a ≡ ends b
              → chunk_loop w h g a ≡ ends b'
              → b ≡ b')
          → go_on w h (λ a. chunk_loop w h f a) o ≡ ends d
          → go_on w h (λ a. chunk_loop w h g a) o ≡ ends d'
          → d ≡ d'
      go (continues a) rec x y = rec a d d' x y
      go (ends a) rec x y = ap connection_of (sym x ∙ y)

  -- A body that the sender wrote in chunks, each a size line and its bytes, ended by a size line for
  -- nothing and a blank line, is read back: where it arrived whole, fits into the 16 MiB of a body in
  -- memory behind what is there, and the trailers so far leave room for the blank line, the body has
  -- exactly the bytes of the chunks in their order behind it, and is complete.
  pub consume_chunked_body-written :
      (chunks : List (Text × Text)) (last : Text) (c : Connection)
      → IsWritten chunks
      → IsSize last 0
      → length c.body + length (joined chunks) ≤ max_buffered_body
      → c.trailer_bytes + 2 ≤ max_head_size
      → c.body_complete ≡ false
      → ((consume_chunked_body w h (before_chunk (written chunks last) c)).body
          ≡ c.body ++ joined chunks)
        × ((consume_chunked_body w h (before_chunk (written chunks last) c)).body_complete ≡ true)
  unfolding consume_chunked_body
  consume_chunked_body-written chunks last c k l fits short unended =
      let buffer = written chunks last in
      let (d, e, x, y) = read_written chunks last c k l fits short unended in
      let (d', e') = chunk_loop-ends w h (before_chunk buffer c) in
      let same =
        ap connection_of e'
        ∙ sym
            (loop_agrees (rounds chunks) (chunk_rounds buffer) (before_chunk buffer c) d d' e e') in
      (ap (λ a. a.body) same ∙ x, ap (λ a. a.body_complete) same ∙ y)
