-- ===== src/DeviceLook/Tests.antt =====
-- qml/components/DeviceLook.js, at concrete inputs.
use harbour_localsend.Common.{◌%◌, ◌^◌, ◌≤◌, ◌≡◌, refl, true, false, [], codes}
use harbour_localsend.Engine.Fractions.{fractions}
use harbour_localsend.DeviceLook.{
  hash, hash_from, hash_step, absolute, accent, hsl_to_hex, hue_to_channel, byte_to_hex, two_digits,
  hex_onto, initials, trim_start, trim_end, split, letters_of,
}
use harbour_localsend.DeviceLook.Hash.{base_31, hash-base_31}
use harbour_localsend.DeviceLook.Colour.{IsColour, accent-IsColour}

looks : Unit {0}
unfolding hash hash_from hash_step accent hsl_to_hex hue_to_channel byte_to_hex two_digits hex_onto
    initials trim_start trim_end split letters_of
looks = tt

shown :
    (hash (codes "abc") ≡ 96354)
    × (hash (codes "localsend") ≡ 1204289165)
    × (initials fractions (codes " secret  banana x") ≡ codes "SB")
    × (initials fractions (codes "Ann") ≡ codes "AN")
    × (initials fractions [] ≡ codes "?")
    × (initials fractions (codes "  ") ≡ [])
    × (accent fractions [] true ≡ codes "#d06c6c")
    × (accent fractions (codes "abc") false ≡ codes "#b24438")
unfolding looks
shown = (refl, refl, refl, refl, refl, refl, refl, refl)

hash-base_31_example :
    (hash (codes "localsend") ≡ absolute (base_31 (codes "localsend") % 2 ^ 32))
    × (hash (codes "localsend") ≤ 2 ^ 31)
hash-base_31_example = hash-base_31 (codes "localsend")

accent-IsColour_example : IsColour (accent fractions (codes "localsend") true)
accent-IsColour_example = accent-IsColour fractions (codes "localsend") true
