-- ===== src/HttpServer/Wire.antt =====
-- src/httpserver.cpp, what its parser takes from Qt's byte arrays: searching, splitting, and the
-- calls that stay parameters.
use harbour_localsend.Common.{
  ℕ, zero, suc, ◌+◌, ◌≤◌, ◌≡◌, arith, Bool, true, false, List, [], ◌∷◌, Option, none, some, length,
  ◌==◌, if◌then◌else◌, Text, ℤ,
}

-- What a handler does with a connection through its public functions. A body is given a sink only
-- before it is read.
pub data Reply : Type 0 where
  responding : (status : ℕ) (payload content_type : Text) → Reply
  adding : (name value : Text) → Reply

pub data Action : Type 0 where
  replying : Reply → Action
  streaming : (max_bytes : Option ℕ) → Action

pub record Wire : Type 0 where
  -- QByteArray::trimmed, toLower, and fromLatin1 with toUpper
  pub trimmed : Text → Text
  pub to_lower : Text → Text
  pub to_upper : Text → Text
  -- QByteArray::toLongLong to the base 10 and 16; none where its flag says no
  pub to_decimal : Text → Option ℤ
  pub to_hexadecimal : Text → Option ℤ
  -- QByteArray::number
  pub number : ℕ → Text
  -- QUrl::path, and QUrlQuery::queryItems decoded
  pub url_path : Text → Text
  pub query_items : Text → List (Text × Text)
  -- whether the sink takes a block behind what was written to it
  pub takes : Text → Text → Bool

abbrev pub starts_with : Text → Text → Bool
starts_with [] t = true
starts_with (a ∷ p) [] = false
starts_with (a ∷ p) (b ∷ t) = if a == b then starts_with p t else false

abbrev pub next : Option ℕ → Option ℕ
next none = none
next (some i) = some (suc i)

-- QByteArray::indexOf: -1 is none.
unfoldable pub index_of : Text → Text → Option ℕ
index_of p [] = if starts_with p [] then some 0 else none
index_of p (c ∷ t) = if starts_with p (c ∷ t) then some 0 else next (index_of p t)

abbrev onto_first : ℕ → List Text → List Text
onto_first c [] = (c ∷ []) ∷ []
onto_first c (line ∷ lines) = (c ∷ line) ∷ lines

-- QByteArray::split
unfoldable pub split : ℕ → Text → List Text
split mark [] = [] ∷ []
split mark (c ∷ t) = if c == mark then [] ∷ split mark t else onto_first c (split mark t)

abbrev pub crlf : Text
crlf = 13 ∷ 10 ∷ []

starts_with-le : (p t : Text) → starts_with p t ≡ true → length p ≤ length t
starts_with-le [] t h = omega arith
starts_with-le (a ∷ p) [] h = cc
starts_with-le (a ∷ p) (b ∷ t) h = ground (arith, starts_with-le p t)

-- What is found lies inside the text.
pub index_of-le : (p t : Text) (i : ℕ) → index_of p t ≡ some i → i + length p ≤ length t
unfolding index_of
index_of-le p [] i h = ground (arith, starts_with-le p [])
index_of-le p (c ∷ t) zero h = ground (arith, starts_with-le p (c ∷ t), index_of-le p t)
index_of-le p (c ∷ t) (suc i) h = ground (arith, index_of-le p t i)
