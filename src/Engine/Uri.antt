-- ===== src/Engine/Uri.antt =====
-- encodeURI, as ECMAScript describes it. `none` is the URIError for a surrogate without its partner.
pub mod Decode
pub mod Points
use harbour_localsend.Common.{
  ℕ, zero, suc, ◌+◌, ◌-◌, ◌*◌, ◌/◌, ◌%◌, Bool, true, false, ◌&&◌, ◌||◌, List, [], ◌∷◌, ◌++◌, Option,
  none, some, exists, ltb, leb, ◌==◌, if◌then◌else◌, Text, codes,
}

abbrev pub is_high : ℕ → Bool
is_high c = leb 0xd800 c && leb c 0xdbff

abbrev pub is_low : ℕ → Bool
is_low c = leb 0xdc00 c && leb c 0xdfff

abbrev pub pair : ℕ → ℕ → ℕ
pair c d = 0x10000 + (c - 0xd800) * 0x400 + (d - 0xdc00)

abbrev pub cons_some : ℕ → Option (List ℕ) → Option (List ℕ)
cons_some p none = none
cons_some p (some ps) = some (p ∷ ps)

-- The code points of a text of code units.
unfoldable pub code_points : Text → Option (List ℕ)
code_points [] = some []
code_points (c ∷ []) = if is_high c || is_low c then none else some (c ∷ [])
code_points (c ∷ d ∷ t) = elim (is_high c) [
  | true ↦ elim (is_low d) [ true ↦ cons_some (pair c d) (code_points t) | false ↦ none ]
  | false ↦ elim (is_low c) [ true ↦ none | false ↦ cons_some c (code_points (d ∷ t)) ]
]

abbrev pub is_letter_or_digit : ℕ → Bool
is_letter_or_digit c =
    leb b'a' c && leb c b'z' || leb b'A' c && leb c b'Z' || leb b'0' c && leb c b'9'

-- The reserved characters, the number sign and the marks.
abbrev pub is_kept : ℕ → Bool
is_kept c = is_letter_or_digit c || exists (λ d. d == c) (codes ";/?:@&=+$,#-_.!~*'()")

abbrev pub utf8 : ℕ → List ℕ
utf8 p =
    if ltb p 0x80
    then p ∷ []
    else if ltb p 0x800
    then (0xc0 + p / 0x40) ∷ (0x80 + p % 0x40) ∷ []
    else if ltb p 0x10000
    then (0xe0 + p / 0x1000) ∷ (0x80 + p / 0x40 % 0x40) ∷ (0x80 + p % 0x40) ∷ []
    else (0xf0 + p / 0x40000)
      ∷ (0x80 + p / 0x1000 % 0x40)
      ∷ (0x80 + p / 0x40 % 0x40)
      ∷ (0x80 + p % 0x40)
      ∷ []

abbrev pub hex_upper : ℕ → ℕ
hex_upper n = if ltb n 10 then b'0' + n else b'A' + (n - 10)

unfoldable pub percents : List ℕ → Text
percents [] = []
percents (b ∷ bs) = b'%' ∷ hex_upper (b / 16) ∷ hex_upper (b % 16) ∷ percents bs

unfoldable pub escape : ℕ → Text
unfolding percents
escape p = if is_kept p then p ∷ [] else percents (utf8 p)

unfoldable pub escapes : List ℕ → Text
escapes [] = []
escapes (p ∷ ps) = escape p ++ escapes ps

abbrev pub escapes_of : Option (List ℕ) → Option Text
escapes_of none = none
escapes_of (some ps) = some (escapes ps)

unfoldable pub encode_uri : Text → Option Text
unfolding code_points escapes
encode_uri t = escapes_of (code_points t)
