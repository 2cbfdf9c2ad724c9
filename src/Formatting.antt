-- ===== src/Formatting.antt =====
-- qml/components/Formatting.js: numbers, fingerprints and paths as the pages show them. A number of
-- bytes or of seconds is a whole number; an argument that is not given is `none`, a text or a list
-- that is not given is the empty one.
pub mod Groups
pub mod Units
pub mod Links
mod Tests
use harbour_localsend.Common.{
  ℕ, zero, suc, ◌+◌, ◌*◌, ◌/◌, ◌%◌, Bool, true, false, ◌||◌, Option, none, some, ℤ, pos, negsuc,
  List, [], ◌∷◌, ◌++◌, length, is_empty, take, drop, ltb, leb, ◌==◌, if◌then◌else◌, Text, codes,
}
use harbour_localsend.Platform.{Platform}
use harbour_localsend.Engine.{Engine, smaller}
use harbour_localsend.Engine.Uri.{encode_uri}

-- The separator in front of the group that starts at character `i`.
abbrev pub separator : ℕ → Text
separator i = if ltb 0 i then if i % 32 == 0 then codes "\n" else codes "  " else []

-- The loop of `fingerprintGroups` from character `i` on, on the rounds that are left; `rest` is the
-- text from there.
unfoldable pub groups_from : ℕ → ℕ → Text → Text
groups_from zero i rest = []
groups_from (suc rounds) i rest =
    let later = groups_from rounds (i + 8) (drop 8 rest) in
    if is_empty rest then [] else separator i ++ (take 8 rest ++ later)

unfoldable pub fingerprint_groups : Text → Text
unfolding groups_from
fingerprint_groups fingerprint = groups_from (length fingerprint) 0 fingerprint

-- The unit that the loop of `fileSize` stops at, with its number of bytes, from the unit `unit` on;
-- `value >= 1024` is tested on the bytes, since a division by a power of two loses nothing.
unfoldable pub scale : ℕ → ℕ → ℕ → ℕ → ℕ × ℕ
scale zero unit size bytes = (unit, size)
scale (suc rounds) unit size bytes =
    let later = scale rounds (unit + 1) (1024 * size) bytes in
    if leb (1024 * size) bytes then later else (unit, size)

abbrev pub unit_name : ℕ → Text
unit_name unit =
    if unit == 0
    then codes "kB"
    else if unit == 1
    then codes "MB"
    else if unit == 2
    then codes "GB"
    else codes "TB"

-- The whole number nearest to `n / d`, the larger of two, which `toFixed` and `Math.round` take.
abbrev pub nearest : ℕ → ℕ → ℕ
nearest n d = (2 * n + d) / (2 * d)

module _ (q : Platform) where
  open q use {number}

  -- `value.toFixed(value < 100 ? 1 : 0)`
  abbrev pub fixed : ℕ → ℕ → Text
  fixed bytes size =
      if ltb bytes (100 * size)
      then number (nearest (10 * bytes) size / 10)
        ++ (b'.' ∷ number (nearest (10 * bytes) size % 10))
      else number (nearest bytes size)

  -- `fileSize` of a number that is given and not negative
  abbrev whole_size : ℕ → Text
  whole_size bytes =
      let (unit, size) = scale 3 0 1024 bytes in
      if ltb bytes 1024
      then number bytes ++ codes " B"
      else fixed bytes size ++ (b' ' ∷ unit_name unit)

  unfoldable pub file_size : Option ℤ → Text
  unfolding scale
  file_size none = codes "0 B"
  file_size (some (negsuc n)) = codes "0 B"
  file_size (some (pos bytes)) = whole_size bytes

  unfoldable pub speed : Option ℤ → Text
  unfolding file_size
  speed none = []
  speed (some (negsuc n)) = []
  speed (some (pos n)) = if n == 0 then [] else file_size (some (pos n)) ++ codes "/s"

  unfoldable pub pad : ℕ → Text
  pad value = if ltb value 10 then b'0' ∷ number value else number value

  -- `duration` of a number that is given and not negative
  unfoldable pub clock_text : ℕ → Text
  unfolding pad
  clock_text seconds =
      let minutes = seconds / 60 in
      if ltb seconds 60
      then number seconds ++ codes "s"
      else if ltb minutes 60
      then number minutes ++ (codes "m " ++ (pad (seconds % 60) ++ codes "s"))
      else number (minutes / 60) ++ (codes "h " ++ (pad (minutes % 60) ++ codes "m"))

  unfoldable pub duration : Option ℤ → Text
  unfolding clock_text
  duration none = []
  duration (some (negsuc n)) = []
  duration (some (pos seconds)) = clock_text seconds

  -- The number in front of the percent sign; `none` is a fraction that is not given.
  unfoldable pub percent_of : (j : Engine) → Option (j.Number) → ℕ
  percent_of j none = 0
  percent_of j (some fraction) =
      if j.is_equal fraction (j.decimal 0 0) || j.is_less fraction (j.decimal 0 0)
      then 0
      else j.round (j.times (smaller j fraction (j.decimal 1 0)) (j.decimal 100 0))

  unfoldable pub percent : (j : Engine) → Option (j.Number) → Text
  unfolding percent_of
  percent j fraction = number (percent_of j fraction) ++ codes "%"

unfoldable pub first_name : List Text → Text
first_name [] = []
first_name (name ∷ names) = name

-- What `"file://" + encodeURI(path)` makes of the result.
abbrev pub with_scheme : Option Text → Option Text
with_scheme none = none
with_scheme (some uri) = some (codes "file://" ++ uri)

-- `none` is the URIError of encodeURI.
unfoldable pub file_url : Text → Option Text
unfolding encode_uri
file_url path = if is_empty path then some [] else with_scheme (encode_uri path)
