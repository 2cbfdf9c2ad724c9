-- ===== src/DeviceLook.antt =====
-- qml/components/DeviceLook.js: the colour of a device, from its fingerprint, and its initials, from
-- its alias. A text that is not given (undefined, null) is the empty one.
pub mod Hash
pub mod Colour
pub mod Initials
mod Tests
use harbour_localsend.Common.{
  ℕ, zero, suc, ◌+◌, ◌-◌, ◌*◌, ◌/◌, ◌%◌, ◌^◌, Bool, true, false, ◌&&◌, List, [], ◌∷◌, ◌++◌, length,
  is_empty, take, ltb, leb, ◌==◌, if◌then◌else◌, Text, codes,
}
use harbour_localsend.Engine.{Engine, smaller, larger}

-- One round of the loop of `hash` on the bits of a signed 32-bit integer, read as a number below
-- 2^32: `value << 5` wraps, the difference and the sum are exact, `& value` wraps again.
unfoldable pub hash_step : ℕ → ℕ → ℕ
hash_step value c = (value * 32 % 2 ^ 32 + (2 ^ 32 - value) + c) % 2 ^ 32

unfoldable pub hash_from : ℕ → Text → ℕ
unfolding hash_step
hash_from value [] = value
hash_from value (c ∷ text) = hash_from (hash_step value c) text

-- `Math.abs` of the integer with the bits `value`
abbrev pub absolute : ℕ → ℕ
absolute value = if ltb value (2 ^ 31) then value else 2 ^ 32 - value

unfoldable pub hash : Text → ℕ
unfolding hash_from
hash text = absolute (hash_from 0 text)

abbrev pub hex_digit : ℕ → ℕ
hex_digit n = if ltb n 10 then b'0' + n else b'a' + (n - 10)

-- `toString(16)`, on fuel; a number has fewer digits than itself and one.
unfoldable pub hex_onto : ℕ → ℕ → Text → Text
hex_onto zero n later = later
hex_onto (suc fuel) n later =
    let more = hex_onto fuel (n / 16) (hex_digit (n % 16) ∷ later) in
    if ltb n 16 then hex_digit (n % 16) ∷ later else more

abbrev pub to_hex : ℕ → Text
to_hex n = hex_onto (suc n) n []

-- `hex.length === 1 ? "0" + hex : hex`
unfoldable pub two_digits : Text → Text
two_digits hex = if length hex == 1 then b'0' ∷ hex else hex

module _ (j : Engine) where
  open j use {
    Number, decimal, plus, minus, times, over, rest, is_less, is_equal, round, is_space, to_upper,
  }

  abbrev pub third : Number
  third = over (decimal 1 0) (decimal 3 0)

  -- `t` after the two steps that bring it back onto the wheel
  abbrev pub turned : Number → Number
  turned t =
      let u = if is_less t (decimal 0 0) then plus t (decimal 1 0) else t in
      if is_less (decimal 1 0) u then minus u (decimal 1 0) else u

  abbrev pub channel_at : Number → Number → Number → Number
  channel_at p q t =
      if is_less t (over (decimal 1 0) (decimal 6 0))
      then plus p (times (times (minus q p) (decimal 6 0)) t)
      else if is_less t (over (decimal 1 0) (decimal 2 0))
      then q
      else if is_less t (over (decimal 2 0) (decimal 3 0))
      then plus p
          (times (times (minus q p) (minus (over (decimal 2 0) (decimal 3 0)) t)) (decimal 6 0))
      else p

  unfoldable pub hue_to_channel : Number → Number → Number → Number
  hue_to_channel p q t = channel_at p q (turned t)

  unfoldable pub byte_to_hex : Number → Text
  unfolding two_digits hex_onto
  byte_to_hex value = two_digits (
      to_hex
        (round (times (larger j (decimal 0 0) (smaller j (decimal 1 0) value)) (decimal 255 0))))

  abbrev pub colour : Number → Number → Number → Text
  colour r g b = b'#' ∷ (byte_to_hex r ++ (byte_to_hex g ++ byte_to_hex b))

  unfoldable pub hsl_to_hex : Number → Number → Number → Text
  unfolding hue_to_channel byte_to_hex
  hsl_to_hex h s l =
      let q =
        if is_less l (decimal 5 1)
        then times l (plus (decimal 1 0) s)
        else minus (plus l s) (times l s) in
      let p = minus (times (decimal 2 0) l) q in
      if is_equal s (decimal 0 0)
      then colour l l l
      else colour (hue_to_channel p q (plus h third)) (hue_to_channel p q h)
          (hue_to_channel p q (minus h third))

  unfoldable pub accent : Text → Bool → Text
  unfolding hash hsl_to_hex
  accent fingerprint dark =
      let hue = rest (times (decimal (hash fingerprint) 0) (decimal 137508 3)) (decimal 360 0) in
      hsl_to_hex (over hue (decimal 360 0)) (decimal 52 2)
        (if dark then decimal 62 2 else decimal 46 2)

  -- `trim`
  unfoldable pub trim_start : Text → Text
  trim_start [] = []
  trim_start (c ∷ t) = if is_space c then trim_start t else c ∷ t

  unfoldable pub trim_end : Text → Text
  trim_end [] = []
  trim_end (c ∷ t) =
      let later = trim_end t in if is_empty later && is_space c then [] else c ∷ later

  abbrev pub onto_first : ℕ → List Text → List Text
  onto_first c [] = (c ∷ []) ∷ []
  onto_first c (word ∷ words) = (c ∷ word) ∷ words

  -- `split(/\s+/)`; `in_gap` is whether the character before was white space.
  unfoldable pub split : Bool → Text → List Text
  split in_gap [] = [] ∷ []
  split in_gap (c ∷ t) = elim (is_space c) [
    | true ↦ if in_gap then split true t else [] ∷ split true t
    | false ↦ onto_first c (split false t)
  ]

  -- What `initials` sets in upper case.
  unfoldable pub letters_of : List Text → Text
  letters_of [] = []
  letters_of (word ∷ []) = take 2 word
  letters_of (first ∷ second ∷ words) = take 1 first ++ take 1 second

  unfoldable pub initials : Text → Text
  unfolding trim_start trim_end split letters_of
  initials alias =
      if is_empty alias
      then codes "?"
      else to_upper (letters_of (split false (trim_end (trim_start alias))))
