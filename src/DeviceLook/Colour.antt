-- ===== src/DeviceLook/Colour.antt =====
-- qml/components/DeviceLook.js, accent: every fingerprint has a colour that QML can read.
use harbour_localsend.Common.{
  ℕ, zero, suc, ◌/◌, ◌%◌, ◌≤◌, ◌<◌, ◌≡◌, refl, arith, Bool, true, false, ◌&&◌, ◌||◌, [], ◌∷◌, ◌++◌,
  length, length-append, leb, ltb, All, All-append, if◌then◌else◌, Text, Bool-cases, inl, inr,
}
use harbour_localsend.Engine.{Engine, larger-IsShare, smaller, larger}
use harbour_localsend.DeviceLook.{
  hex_digit, hex_onto, to_hex, two_digits, byte_to_hex, colour, hsl_to_hex, accent,
}

-- 0 to 9 and a to f
abbrev pub is_hex : ℕ → Bool
is_hex c = (leb b'0' c && leb c b'9') || (leb b'a' c && leb c b'f')

abbrev IsPair : Text → Type 0
IsPair t = (length t ≡ 2) × All (λ c. is_hex c ≡ true) t

-- `#rrggbb`
abbrev pub IsColour : Text → Type 0
IsColour t =
    (digits : Text) × (t ≡ b'#' ∷ digits) × (length digits ≡ 6) × All (λ c. is_hex c ≡ true) digits

hex_digit-is_hex : (n : ℕ) → n < 16 → is_hex (hex_digit n) ≡ true
hex_digit-is_hex n h = ground arith

hex_onto_last :
    (fuel n : ℕ) (later : Text) → n < 16 → hex_onto (suc fuel) n later ≡ hex_digit n ∷ later
unfolding hex_onto
hex_onto_last fuel n later h = ground arith

to_hex_lem : (n : ℕ) → 16 ≤ n → n ≤ 255 → to_hex n ≡ hex_digit (n / 16) ∷ hex_digit (n % 16) ∷ []
unfolding hex_onto
to_hex_lem zero h k = absurd (omega arith)
to_hex_lem (suc m) h k =
    ground (arith, hex_onto_last m (suc m / 16) (hex_digit (suc m % 16) ∷ []) (omega arith))

two_digits-IsPair : (n : ℕ) → n ≤ 255 → IsPair (two_digits (to_hex n))
unfolding two_digits
two_digits-IsPair n h = elim (Bool-cases (ltb n 16)) [
  | inl one ↦
      let low : n < 16 = ground arith in
      rw (hex_onto_last n n [] low) (refl, (refl, (hex_digit-is_hex n low, tt)))
  | inr two ↦ rw (to_hex_lem n (ground arith) h) (
    refl,
    (hex_digit-is_hex (n / 16) (omega arith), (hex_digit-is_hex (n % 16) (omega arith), tt)),
  )
]

pairs-IsColour : (r g b : Text) → IsPair r → IsPair g → IsPair b → IsColour (b'#' ∷ (r ++ (g ++ b)))
pairs-IsColour r g b (lr, hr) (lg, hg) (lb, hb) = (
  r ++ (g ++ b),
  refl,
  omega (arith, length-append r (g ++ b), length-append g b, lr, lg, lb),
  All-append _ r (g ++ b) hr (All-append _ g b hg hb),
)

if-IsColour : (b : Bool) (x y : Text) → IsColour x → IsColour y → IsColour (if b then x else y)
if-IsColour true x y h k = h
if-IsColour false x y h k = k

module _ (j : Engine) where
  open j use {Number, decimal, round_share, is_equal}

  byte_to_hex-IsPair : (v : Number) → IsPair (byte_to_hex j v)
  unfolding byte_to_hex
  byte_to_hex-IsPair v =
      let (low, high) = larger-IsShare j v in
      two_digits-IsPair _ (
        round_share (larger j (decimal 0 0) (smaller j (decimal 1 0) v)) 255 low high (omega arith))

  colour-IsColour : (r g b : Number) → IsColour (colour j r g b)
  colour-IsColour r g b =
      pairs-IsColour (byte_to_hex j r) (byte_to_hex j g) (byte_to_hex j b) (byte_to_hex-IsPair r)
        (byte_to_hex-IsPair g) (byte_to_hex-IsPair b)

  hsl_to_hex-IsColour : (h s l : Number) → IsColour (hsl_to_hex j h s l)
  unfolding hsl_to_hex
  hsl_to_hex-IsColour h s l =
      if-IsColour (is_equal s (decimal 0 0)) _ _ (colour-IsColour l l l) (colour-IsColour _ _ _)

  -- Whatever a fingerprint is, its colour is a number sign and six hexadecimal digits.
  pub accent-IsColour : (fingerprint : Text) (dark : Bool) → IsColour (accent j fingerprint dark)
  unfolding accent
  accent-IsColour fingerprint dark = hsl_to_hex-IsColour _ _ _
