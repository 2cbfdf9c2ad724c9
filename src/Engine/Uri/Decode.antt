-- ===== src/Engine/Uri/Decode.antt =====
-- encodeURI: taking the percent signs out again gives the UTF-8 of the text.
use harbour_localsend.Common.{
  ℕ, ◌+◌, ◌-◌, ◌*◌, ◌/◌, ◌%◌, ◌<◌, ◌≡◌, refl, ap, ◌∙◌, arith, true, false, List, [], ◌∷◌, ◌++◌, All,
  ltb, ◌==◌, if◌then◌else◌, Text, Bool-cases, inl, inr,
}
use harbour_localsend.Engine.Uri.{is_kept, utf8, hex_upper, percents, escape, escapes}

abbrev pub hex_value : ℕ → ℕ
hex_value c = if ltb c b'A' then c - b'0' else c - b'A' + 10

-- Each `%` and the two digits behind it are a byte, and every other character is one.
abbrev pub decode : Text → List ℕ
decode [] = []
decode (c ∷ []) = c ∷ []
decode (c ∷ a ∷ []) = c ∷ a ∷ []
decode (c ∷ a ∷ b ∷ t) = elim (c == b'%') [
  | true ↦ (16 * hex_value a + hex_value b) ∷ decode t
  | false ↦ c ∷ decode (a ∷ b ∷ t)
]

-- The UTF-8 of a text.
abbrev pub utf8_all : List ℕ → List ℕ
utf8_all [] = []
utf8_all (p ∷ ps) = utf8 p ++ utf8_all ps

hex_value-hex_upper : (n : ℕ) → n < 16 → hex_value (hex_upper n) ≡ n
hex_value-hex_upper n h = ground arith

byte_lem :
    (b : ℕ) → b < 256 → 16 * hex_value (hex_upper (b / 16)) + hex_value (hex_upper (b % 16)) ≡ b
byte_lem b h =
    omega (
      arith,
      hex_value-hex_upper (b / 16) (omega arith),
      hex_value-hex_upper (b % 16) (omega arith),
    )

decode-percents :
    (bs : List ℕ) (t : Text) → All (λ b. b < 256) bs → decode (percents bs ++ t) ≡ bs ++ decode t
unfolding percents
decode-percents [] t h = refl
decode-percents (b ∷ bs) t h = rw (byte_lem b h.0) (ap (λ xs. b ∷ xs) (decode-percents bs t h.1))

decode_kept : (c : ℕ) (t : Text) → (c == b'%') ≡ false → decode (c ∷ t) ≡ c ∷ decode t
decode_kept c [] h = refl
decode_kept c (a ∷ []) h = refl
decode_kept c (a ∷ b ∷ t) h = rw (h, decode) refl

pub utf8-All : (p : ℕ) → p < 0x110000 → All (λ b. b < 256) (utf8 p)
utf8-All p h = ground arith

kept-ascii : (p : ℕ) → is_kept p ≡ true → (p < 0x80) × ((p == b'%') ≡ false)
kept-ascii p h = ground arith

decode-escape : (p : ℕ) (t : Text) → p < 0x110000 → decode (escape p ++ t) ≡ utf8 p ++ decode t
unfolding escape
decode-escape p t h = elim (Bool-cases (is_kept p)) [
  | inl kept ↦
      let (low, other) = kept-ascii p kept in
      rw kept (decode_kept p t other ∙ ap (λ bs. bs ++ decode t) (single p low))
  | inr escaped ↦ rw escaped (decode-percents (utf8 p) t (utf8-All p h))
]
  where
    single : (p : ℕ) → p < 0x80 → p ∷ [] ≡ utf8 p
    single p h = ground arith

pub decode-escapes : (ps : List ℕ) → All (λ p. p < 0x110000) ps → decode (escapes ps) ≡ utf8_all ps
unfolding escapes
decode-escapes [] h = refl
decode-escapes (p ∷ ps) h =
    decode-escape p (escapes ps) h.0 ∙ ap (λ bs. utf8 p ++ bs) (decode-escapes ps h.1)

-- A text without percent signs in front.
pub decode_plain : (s t : Text) → All (λ c. (c == b'%') ≡ false) s → decode (s ++ t) ≡ s ++ decode t
decode_plain [] t h = refl
decode_plain (c ∷ s) t h = decode_kept c (s ++ t) h.0 ∙ ap (λ bs. c ∷ bs) (decode_plain s t h.1)
