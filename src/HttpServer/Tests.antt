-- ===== src/HttpServer/Tests.antt =====
-- Runs of a connection, with ASCII texts, a sink that takes everything and a handler that streams
-- the body of an upload and answers every request with 200.
use harbour_localsend.Common.{
  arith, ℕ, ◌+◌, ◌-◌, ◌*◌, ◌≡◌, refl, Bool, true, false, ◌&&◌, ◌||◌, List, [], ◌∷◌, ◌++◌, Option,
  none, some, length, forall, map, leb, ◌==◌, if◌then◌else◌, Text, codes, text_eq, find, insert, ℤ,
  pos, replicate,
}
use harbour_localsend.Platform.{ascii}
use harbour_localsend.HttpServer.Wire.{Wire, responding, Action, streaming, crlf, index_of, split}
use harbour_localsend.HttpServer.State.{
  Connection, ends, new_connection, reading_body, chunk_trailer, has_responded, perform_all,
  stream_body_to, perform_replies, respond,
}
use harbour_localsend.HttpServer.Head.{parse_head, read_lines, read_line, add_field, measure_body}
use harbour_localsend.HttpServer.Body.{
  Handlers, chunk_loop, chunk_rounds, consume_body, consume_chunked_body, consume_plain_body,
  deliver, read_data, finish_body,
}
use harbour_localsend.HttpServer.Body.Chunks.{written, before_chunk, consume_chunked_body-written}
use harbour_localsend.HttpServer.Body.Rounds.{chunk_loop-ends}
use harbour_localsend.HttpServer.Body.Sound.{IsSound}
use harbour_localsend.HttpServer.Events.{
  Event, reads, idles, disconnects, replies, run, on_ready_read,
}
use harbour_localsend.HttpServer.Events.Sound.{run-IsSound}
use harbour_localsend.HttpServer.Events.Late.{on_ready_read_keeps_trailer}

abbrev is_blank : ℕ → Bool
is_blank c = c == b' ' || (leb 9 c && leb c 13)

abbrev strip_start : Text → Text
strip_start [] = []
strip_start (c ∷ t) = if is_blank c then strip_start t else c ∷ t

abbrev strip_end : Text → Text
strip_end [] = []
strip_end (c ∷ t) = if forall is_blank (c ∷ t) then [] else c ∷ strip_end t

abbrev lower : ℕ → ℕ
lower c = if leb b'A' c && leb c b'Z' then c + 32 else c

abbrev digits_from : ℕ → ℕ → Text → Option ℤ
digits_from base n [] = some (pos n)
digits_from base n (c ∷ t) =
    if leb b'0' c && leb c b'9' then digits_from base (n * base + (c - b'0')) t else none

abbrev to_number : ℕ → Text → Option ℤ
to_number base [] = none
to_number base (c ∷ t) = digits_from base 0 (c ∷ t)

abbrev wire : Wire
wire = record {
  trimmed = λ t. strip_end (strip_start t);
  to_lower = map lower;
  to_upper = ascii.to_upper;
  to_decimal = to_number 10;
  to_hexadecimal = to_number 16;
  number = ascii.number;
  url_path = λ t. t;
  query_items = λ t. [];
  takes = λ written block. true;
}

abbrev uploads_at : Connection → List Action
uploads_at c = if text_eq c.path (codes "/up") then streaming (some 10) ∷ [] else []

abbrev handlers : Handlers
handlers = record {
  on_headers_ready = uploads_at;
  on_request_ready = λ c. responding 200 [] [] ∷ [];
}

-- The same, but that leaves a request parked.
abbrev parking : Handlers
parking = record { on_headers_ready = uploads_at; on_request_ready = λ c. [] }

abbrev request : Text
request =
    codes "POST /up HTTP/1.1"
    ++ (crlf ++ (codes "Content-Length: 4" ++ (crlf ++ (crlf ++ codes "ab"))))

-- The body comes in two reads, and lands in the sink.
sink_test :
    (run wire handlers (reads request ∷ reads (codes "cd") ∷ []) new_connection).sink
    ≡ some (codes "abcd")
unfolding run on_ready_read parse_head read_lines read_line add_field measure_body consume_body
    consume_plain_body deliver finish_body stream_body_to perform_all index_of split find text_eq
    insert perform_replies respond
sink_test = refl

abbrev chunks : Connection
chunks = record new_connection {
  phase = reading_body;
  chunked = true;
  buffer = codes "3" ++ (crlf ++ (codes "abc" ++ (crlf ++ (codes "0" ++ (crlf ++ crlf)))));
}

chunks_test : (consume_chunked_body wire parking chunks).body ≡ codes "abc"
unfolding consume_chunked_body chunk_loop read_data deliver finish_body index_of perform_replies
chunks_test = refl

chunk_loop-ends_example :
    (d : Connection) × (chunk_loop wire parking (chunk_rounds chunks.buffer) chunks ≡ ends d)
chunk_loop-ends_example = chunk_loop-ends wire parking chunks

abbrev events : List Event
events =
    reads request ∷ reads (codes "cd") ∷ replies (responding 500 [] []) ∷ idles ∷ disconnects ∷ []

run-IsSound_example : IsSound (run wire handlers events new_connection)
run-IsSound_example = run-IsSound wire handlers events

abbrev trailer : Connection
trailer = record new_connection {
  phase = reading_body;
  chunked = true;
  chunk_state = chunk_trailer;
}

on_ready_read_keeps_trailer_example :
    (length (on_ready_read wire parking (replicate 100000 b'a') trailer).buffer ≡ 100000)
    × (has_responded (on_ready_read wire parking (replicate 100000 b'a') trailer).phase ≡ false)
on_ready_read_keeps_trailer_example =
    on_ready_read_keeps_trailer wire parking 100000 trailer (refl, refl, refl, refl) refl

abbrev sent_chunks : List (Text × Text)
sent_chunks = (codes "3", codes "abc") ∷ (codes "2;x", codes "de") ∷ []

abbrev start : Connection
start = record new_connection { phase = reading_body; chunked = true }

abbrev fed : Connection
fed = before_chunk wire parking (written sent_chunks (codes "0")) start

consume_chunked_body-written_example :
    ((consume_chunked_body wire parking fed).body ≡ codes "abcde")
    × ((consume_chunked_body wire parking fed).body_complete ≡ true)
unfolding index_of
consume_chunked_body-written_example =
    consume_chunked_body-written wire parking sent_chunks (codes "0") start
      ((refl, refl), refl, ((refl, refl), refl, tt)) (refl, refl) (omega arith) (omega arith) refl
