-- ===== src/HttpServer/Head.antt =====
-- src/httpserver.cpp, HttpConnection::parseHead: the request line and the headers.
use harbour_localsend.Common.{
  ℕ, zero, suc, ◌+◌, Bool, true, false, not, List, [], ◌∷◌, Option, none, some, take, drop,
  if◌then◌else◌, Text, codes, text_eq, find, insert, ℤ, pos, negsuc, is_positive,
}
use harbour_localsend.HttpServer.Wire.{Wire, index_of, split}
use harbour_localsend.HttpServer.State.{Connection, Outcome, continues, ends, fail}

-- `QHash::value`: an empty text for a header that is not there.
abbrev pub header_or_empty : Option Text → Text
header_or_empty none = []
header_or_empty (some t) = t

abbrev pub header : Text → Connection → Text
header name c = header_or_empty (find name c.headers)

abbrev pub found : Option ℕ → Bool
found none = false
found (some i) = true

-- A header that is there with another value.
abbrev pub disagrees : Option Text → Text → Bool
disagrees none value = false
disagrees (some known) value = not (text_eq known value)

abbrev pub insert_all : List (Text × Text) → List (Text × Text) → List (Text × Text)
insert_all [] query = query
insert_all ((k, v) ∷ items) query = insert_all items (insert k v query)

-- The declared length: 0 where it is no number or not positive.
abbrev pub declared_length : Option ℤ → ℤ
declared_length none = pos 0
declared_length (some n) = if is_positive n then n else pos 0

module _ (w : Wire) where
  open w use {trimmed, to_lower, to_upper, to_decimal, url_path, query_items}

  unfoldable pub add_field : Text → Text → Connection → Outcome
  add_field name value c =
      if disagrees (find name c.headers) value
      then ends (fail w 400 c)
      else continues (record c { headers = insert name value c.headers })

  -- The line from its colon on; a line without a name is passed over.
  abbrev pub read_field : Option ℕ → Text → Connection → Outcome
  read_field none line c = continues c
  read_field (some zero) line c = continues c
  read_field (some (suc i)) line c =
      add_field (to_lower (trimmed (take (suc i) line))) (trimmed (drop (suc i + 1) line)) c

  unfoldable pub read_line : Text → Connection → Outcome
  read_line text c = read_field (index_of (b':' ∷ []) (trimmed text)) (trimmed text) c

  unfoldable pub read_lines : List Text → Connection → Outcome
  read_lines [] c = continues c
  read_lines (line ∷ rest) c = elim (read_line line c) [
    | continues d ↦ read_lines rest d
    | ends d ↦ ends d
  ]

  -- The head is in: how long is the body?
  unfoldable pub measure_body : Connection → Connection
  measure_body c =
      if found (index_of (codes "chunked") (to_lower (header (codes "transfer-encoding") c)))
      then record c { deadline_running = false; chunked = true; content_length = negsuc 0 }
      else record c {
        deadline_running = false;
        chunked = false;
        content_length = declared_length (to_decimal (header (codes "content-length") c));
      }

  abbrev pub read_target : Text → Text → Connection → Connection
  read_target verb target c = record c {
    method = to_upper verb;
    path = url_path target;
    query = insert_all (query_items target) c.query;
  }

  abbrev pub read_rest : Outcome → Outcome
  read_rest (continues c) = continues (measure_body c)
  read_rest (ends c) = ends c

  -- The words of the request line, and the other lines; two words at least are wanted.
  abbrev pub read_request : List Text → List Text → Connection → Outcome
  read_request [] rest c = ends (fail w 400 c)
  read_request (verb ∷ []) rest c = ends (fail w 400 c)
  read_request (verb ∷ target ∷ more) rest c =
      read_rest (read_lines rest (read_target verb target c))

  abbrev pub parse_lines : List Text → Connection → Outcome
  parse_lines [] c = ends (fail w 400 c)
  parse_lines (first ∷ rest) c = read_request (split b' ' (trimmed first)) rest c

  unfoldable pub parse_head : Text → Connection → Outcome
  parse_head head c = parse_lines (split b'\n' head) c
