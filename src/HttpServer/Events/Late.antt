-- ===== src/HttpServer/Events/Late.antt =====
-- src/httpserver.cpp, onReadyRead: what arrives in the trailer of a chunked body.
use harbour_localsend.Common.{
  ℕ, zero, suc, ◌+◌, ◌*◌, ◌≡◌, refl, ap, ◌∙◌, Bool, true, false, ◌||◌, [], ◌++◌, none, length,
  if◌then◌else◌, Text, replicate,
}
use harbour_localsend.HttpServer.Wire.{Wire, index_of, crlf}
use harbour_localsend.HttpServer.State.{
  Connection, connection_of, has_responded, reading_body, chunk_trailer,
}
use harbour_localsend.HttpServer.Body.{
  Handlers, consume_body, consume_in, consume_plain_body, consume_chunked_body, chunk_round,
  read_trailer, chunk_loop, go_on,
}
use harbour_localsend.HttpServer.Body.Lines.{if_false}
use harbour_localsend.HttpServer.Events.{read_buffer, on_ready_read}

if_true {ℓ} : {A : Type ℓ} (b : Bool) (x y : A) → b ≡ true → (if b then x else y) ≡ x
if_true b x y e = rw e refl

module _ (w : Wire) (h : Handlers) where
  -- In the trailer of a chunked body.
  abbrev pub IsInTrailer : Connection → Type 0
  IsInTrailer c =
      (c.phase ≡ reading_body)
      × (c.body_complete ≡ false)
      × (c.chunked ≡ true)
      × (c.chunk_state ≡ chunk_trailer)

  unended_trailer :
      (bytes : Text) (c : Connection)
      → IsInTrailer c
      → index_of crlf (c.buffer ++ bytes) ≡ none
      → on_ready_read w h bytes c ≡ record c { idle_running = true; buffer = c.buffer ++ bytes }
  unfolding on_ready_read consume_body consume_chunked_body chunk_loop
  unended_trailer bytes c (p, b, k, t) absent =
      let fed : Connection = record c { idle_running = true; buffer = c.buffer ++ bytes } in
      if_false (has_responded c.phase || c.body_complete) _ _ (rw (p, b) refl)
      ∙ ap (λ q. read_buffer w h q fed) p
      ∙ ap (λ q. consume_in w h q fed) p
      ∙ if_false c.body_complete fed
          (if c.chunked then consume_chunked_body w h fed else consume_plain_body w h fed) b
      ∙ if_true c.chunked (consume_chunked_body w h fed) (consume_plain_body w h fed) k
      ∙ ap connection_of (
          ap
            (λ q.
              go_on w h (λ d. chunk_loop w h (length fed.buffer * 2 + 1) d) (chunk_round w h q fed))
            t
          ∙ ap
              (λ o.
                go_on w h (λ d. chunk_loop w h (length fed.buffer * 2 + 1) d)
                  (read_trailer w h o fed))
              absent)

  no_crlf : (n : ℕ) → index_of crlf (replicate n b'a') ≡ none
  unfolding index_of
  no_crlf zero = refl
  no_crlf (suc n) = rw (no_crlf n) refl

  length-replicate : (n : ℕ) → length (replicate {A = ℕ} n b'a') ≡ n
  length-replicate zero = refl
  length-replicate (suc n) = ap suc (length-replicate n)

  -- On a connection in the trailer of a chunked body that is not complete, with nothing left in its
  -- buffer, `n` letters without a line break are all kept in the buffer and not answered, whatever
  -- `n` is.
  pub on_ready_read_keeps_trailer :
      (n : ℕ) (c : Connection)
      → IsInTrailer c
      → c.buffer ≡ []
      → (length (on_ready_read w h (replicate n b'a') c).buffer ≡ n)
        × (has_responded (on_ready_read w h (replicate n b'a') c).phase ≡ false)
  on_ready_read_keeps_trailer n c k e =
      let kept =
        unended_trailer (replicate n b'a') c k
          (ap (λ t. index_of crlf (t ++ replicate n b'a')) e ∙ no_crlf n) in
      (
        ap (λ d. length d.buffer) kept
            ∙ ap (λ t. length (t ++ replicate n b'a')) e
            ∙ length-replicate n,
        ap (λ d. has_responded d.phase) kept ∙ ap has_responded k.0,
      )
