-- ===== src/HttpServer/State.antt =====
-- src/httpserver.h and .cpp: a connection, its answers and its headers. `sent` is what was written
-- to the socket and `signals` what was emitted, the last one first; a timer is its interval and
-- whether it runs.
use harbour_localsend.Common.{
  ℕ, ◌*◌, Bool, true, false, not, ◌||◌, List, [], ◌∷◌, ◌++◌, Option, none, some, is_empty, keep,
  length, ltb, ◌==◌, if◌then◌else◌, Text, codes, ℤ, pos, negsuc,
}
use harbour_localsend.HttpServer.Wire.{Wire, Reply, responding, adding, Action, replying, streaming}

abbrev pub max_head_size : ℕ
max_head_size = 32 * 1024

abbrev pub max_buffered_body : ℕ
max_buffered_body = 16 * 1024 * 1024

abbrev pub idle_timeout_ms : ℕ
idle_timeout_ms = 60 * 1000

abbrev pub drain_timeout_ms : ℕ
drain_timeout_ms = 5 * 1000

abbrev pub reason_phrase : ℕ → Text
reason_phrase status =
    if status == 100
    then codes "Continue"
    else if status == 200
    then codes "OK"
    else if status == 204
    then codes "No Content"
    else if status == 400
    then codes "Bad Request"
    else if status == 401
    then codes "Unauthorized"
    else if status == 403
    then codes "Forbidden"
    else if status == 404
    then codes "Not Found"
    else if status == 405
    then codes "Method Not Allowed"
    else if status == 408
    then codes "Request Timeout"
    else if status == 409
    then codes "Conflict"
    else if status == 413
    then codes "Payload Too Large"
    else if status == 429
    then codes "Too Many Requests"
    else if status == 431
    then codes "Request Header Fields Too Large"
    else if status == 500
    then codes "Internal Server Error"
    else codes "Unknown"

-- HttpConnection::State
pub data Phase : Type 0 where
  reading_headers reading_body responded : Phase

-- HttpConnection::ChunkState
pub data ChunkState : Type 0 where
  chunk_size chunk_data chunk_crlf chunk_trailer chunk_done : ChunkState

-- The state of the socket, as far as the source tells it apart.
pub data Socket : Type 0 where
  connected closing gone : Socket

pub data Signal : Type 0 where
  headers_ready request_ready closed : Signal
  body_progress : (received : ℕ) (total : ℤ) → Signal

-- What was written to the socket: the invitation to go on, or an answer.
pub data Sent : Type 0 where
  invitation : Sent
  final : (status : ℕ) (bytes : Text) → Sent

pub record Connection : Type 0 where
  pub phase : Phase
  pub buffer : Text
  pub method : Text
  pub path : Text
  pub query : List (Text × Text)
  pub headers : List (Text × Text)
  pub extra_headers : List (Text × Text)
  pub body : Text
  pub sink : Option Text
  pub max_body_bytes : Option ℕ
  pub content_length : ℤ
  pub body_received : ℕ
  pub chunked : Bool
  pub chunk_state : ChunkState
  pub chunk_remaining : ℕ
  pub trailer_bytes : ℕ
  pub body_complete : Bool
  pub closed_emitted : Bool
  pub idle_interval : ℕ
  pub idle_running : Bool
  pub deadline_running : Bool
  pub socket : Socket
  pub sent : List Sent
  pub signals : List Signal

-- HttpConnection::HttpConnection
abbrev pub new_connection : Connection
new_connection = record {
  phase = reading_headers;
  buffer = [];
  method = [];
  path = [];
  query = [];
  headers = [];
  extra_headers = [];
  body = [];
  sink = none;
  max_body_bytes = none;
  content_length = pos 0;
  body_received = 0;
  chunked = false;
  chunk_state = chunk_size;
  chunk_remaining = 0;
  trailer_bytes = 0;
  body_complete = false;
  closed_emitted = false;
  idle_interval = idle_timeout_ms;
  idle_running = true;
  deadline_running = true;
  socket = connected;
  sent = [];
  signals = [];
}

-- The Boolean that parseHead and deliver return, and whether a loop goes on, with the connection.
pub data Outcome : Type 0 where
  continues : Connection → Outcome
  ends : Connection → Outcome

abbrev pub connection_of : Outcome → Connection
connection_of (continues c) = c
connection_of (ends c) = c

abbrev pub has_responded : Phase → Bool
has_responded reading_headers = false
has_responded reading_body = false
has_responded responded = true

abbrev pub is_connected : Socket → Bool
is_connected connected = true
is_connected closing = false
is_connected gone = false

abbrev pub lines : List Text → Text
lines [] = []
lines (t ∷ ts) = t ++ (13 ∷ 10 ∷ lines ts)

abbrev pub header_lines : List (Text × Text) → List Text
header_lines [] = []
header_lines ((name, value) ∷ rest) = (name ++ (codes ": " ++ value)) ∷ header_lines rest

-- What every answer says, up to the blank line.
abbrev pub fixed_lines : List Text
fixed_lines =
    codes "Access-Control-Allow-Origin: *"
    ∷ codes "Access-Control-Allow-Methods: GET, POST, OPTIONS"
    ∷ codes "Access-Control-Allow-Headers: Content-Type"
    ∷ codes "Connection: close"
    ∷ []
    ∷ []

abbrev is_kept : ℕ → Bool
is_kept c = not (c == 13 || c == 10)

-- `replace('\r', "")` and `replace('\n', "")`
abbrev pub on_one_line : Text → Text
on_one_line t = keep is_kept t

unfoldable pub add_header : Text → Text → Connection → Connection
add_header name value c = record c {
  extra_headers = c.extra_headers ++ ((on_one_line name, on_one_line value) ∷ []);
}

-- Whether `streamBodyTo` refuses the length that was declared.
abbrev pub is_past : ℤ → Option ℕ → Bool
is_past (pos n) none = false
is_past (pos n) (some limit) = ltb limit n
is_past (negsuc n) limit = false

module _ (w : Wire) where
  open w use {number}

  abbrev pub type_line : Text → List Text
  type_line content_type =
      if is_empty content_type then [] else (codes "Content-Type: " ++ content_type) ∷ []

  -- The bytes that `respond` writes.
  abbrev pub response : ℕ → Text → Text → List (Text × Text) → Text
  response status payload content_type extra =
      lines (
        ((codes "HTTP/1.1 " ++ (number status ++ (b' ' ∷ reason_phrase status))) ∷ [])
        ++ (type_line content_type
            ++ (((codes "Content-Length: " ++ number (length payload)) ∷ [])
                ++ (header_lines extra ++ fixed_lines))))
      ++ payload

  -- What `respond` does behind its first test.
  abbrev pub write_response : Sent → Connection → Connection
  write_response answer c =
      if not (is_connected c.socket)
      then record c { phase = responded; idle_running = false }
      else if c.body_complete
      then record c {
        phase = responded;
        idle_running = false;
        sent = answer ∷ c.sent;
        socket = closing;
      }
      else record c {
        phase = responded;
        idle_interval = drain_timeout_ms;
        idle_running = true;
        sent = answer ∷ c.sent;
      }

  unfoldable pub respond : ℕ → Text → Text → Connection → Connection
  respond status payload content_type c =
      if has_responded c.phase
      then c
      else write_response (final status (response status payload content_type c.extra_headers)) c

  abbrev pub fail : ℕ → Connection → Connection
  fail status c = respond status [] (codes "application/json") c

  unfoldable pub stream_body_to : Option ℕ → Connection → Connection
  stream_body_to limit c =
      let streamed : Connection = record c { sink = some []; max_body_bytes = limit } in
      if is_past c.content_length limit then fail 413 streamed else streamed

  -- The public functions that a handler calls, in their order.
  abbrev pub perform_reply : Reply → Connection → Connection
  perform_reply (responding status payload content_type) c = respond status payload content_type c
  perform_reply (adding name value) c = add_header name value c

  abbrev pub perform : Action → Connection → Connection
  perform (replying r) c = perform_reply r c
  perform (streaming limit) c = stream_body_to limit c

  unfoldable pub perform_replies : List Reply → Connection → Connection
  perform_replies [] c = c
  perform_replies (r ∷ rs) c = perform_replies rs (perform_reply r c)

  unfoldable pub perform_all : List Action → Connection → Connection
  perform_all [] c = c
  perform_all (a ∷ actions) c = perform_all actions (perform a c)
