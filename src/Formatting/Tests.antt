-- ===== src/Formatting/Tests.antt =====
-- qml/components/Formatting.js, at concrete inputs.
use harbour_localsend.Common.{
  ℕ, ◌+◌, ◌*◌, ◌≡◌, ◌≤◌, ◌<◌, ◌⊎◌, refl, arith, some, pos, exists, ◌==◌, List, ◌++◌, All, Text,
  codes,
}
use harbour_localsend.Platform.{ascii}
use harbour_localsend.Formatting.{
  fingerprint_groups, groups_from, scale, nearest, file_size, speed, pad, clock_text, duration,
  percent_of, percent, file_url,
}
use harbour_localsend.Engine.Fractions.{fractions}
use harbour_localsend.Engine.Uri.{encode_uri, code_points, escapes, escape, percents}
use harbour_localsend.Engine.Uri.Decode.{decode, utf8_all}
use harbour_localsend.Formatting.Units.{scale-bounds, nearest-error, percent_of-le, duration_lem}
use harbour_localsend.Formatting.Links.{until_mark, exists-file_url, decode-file_url}

formats : Unit {0}
unfolding fingerprint_groups groups_from scale file_size speed pad clock_text duration percent_of
    percent file_url encode_uri code_points escapes escape percents
formats = tt

shown :
    (fingerprint_groups (codes "abcdefghij") ≡ codes "abcdefgh  ij")
    × (file_size ascii (some (pos 1000)) ≡ codes "1000 B")
    × (file_size ascii (some (pos 1536)) ≡ codes "1.5 kB")
    × (file_size ascii (some (pos 104857600)) ≡ codes "100 MB")
    × (speed ascii (some (pos 2097152)) ≡ codes "2.0 MB/s")
    × (duration ascii (some (pos 134)) ≡ codes "2m 14s")
    × (duration ascii (some (pos 3780)) ≡ codes "1h 03m")
    × (percent ascii fractions (some (record { gain = 2; loss = 0; below = 2 })) ≡ codes "67%")
    × (file_url (codes "/d/a #1.txt") ≡ some (codes "file:///d/a%20#1.txt"))
unfolding formats
shown = (refl, refl, refl, refl, refl, refl, refl, refl, refl)

scale-bounds_example :
    ((scale 3 0 1024 5000000).1 ≤ 5000000)
    × ((5000000 < 1024 * (scale 3 0 1024 5000000).1) ⊎ ((scale 3 0 1024 5000000).0 ≡ 3))
scale-bounds_example = scale-bounds 5000000 (omega arith)

nearest-error_example :
    (2 * (nearest 15 4 * 4) ≤ 2 * 15 + 4) × (2 * 15 < 2 * (nearest 15 4 * 4) + 4)
nearest-error_example = nearest-error 15 4 (omega arith)

percent_of-le_example :
    percent_of ascii fractions (some (record { gain = 7; loss = 0; below = 2 })) ≤ 100
percent_of-le_example =
    percent_of-le ascii fractions (some (record { gain = 7; loss = 0; below = 2 }))

duration_lem_example :
    (high : ℕ) × (low : ℕ) × (low < 60)
    × ((duration ascii (some (pos 134))
            ≡ ascii.number high ++ (codes "m " ++ (pad ascii low ++ codes "s")))
          × (high * 60 + low ≡ 134)
          × (high < 60)
        ⊎ (duration ascii (some (pos 134))
            ≡ ascii.number high ++ (codes "h " ++ (pad ascii low ++ codes "m")))
          × ((high * 60 + low) * 60 ≤ 134)
          × (134 < (high * 60 + low) * 60 + 60))
duration_lem_example = duration_lem ascii 134 (omega arith)

-- The name that the source's comment gives.
abbrev holiday : Text
holiday = codes "/holiday#2.jpg"

holiday_units : All (λ c. c < 0x10000) holiday
holiday_units = ground arith

exists-file_url_example :
    exists (λ c. c == b'#') (codes "file:///holiday#2.jpg") ≡ exists (λ c. c == b'#') holiday
unfolding formats
exists-file_url_example =
    exists-file_url b'#' holiday (codes "file:///holiday#2.jpg") refl holiday_units refl refl

decode-file_url_example :
    (points : List ℕ) × (code_points (codes "/a b#2") ≡ some points)
    × (decode (until_mark (codes "file:///a%20b#2"))
        ≡ codes "file://" ++ utf8_all (until_mark points))
unfolding formats
decode-file_url_example =
    decode-file_url (codes "/a b#2") (codes "file:///a%20b#2") (ground arith) refl refl
