-- ===== src/DeviceLook/Hash.antt =====
-- qml/components/DeviceLook.js, hash: the loop with its wrap-around is a number in base 31.
use harbour_localsend.Common.{
  ℕ, ◌+◌, ◌*◌, ◌%◌, ◌^◌, ◌≤◌, ◌<◌, ◌≡◌, refl, ap, ◌∙◌, arith, [], ◌∷◌, length, Text,
}
use native.Mathlib.Nat.{pow-suc}
use harbour_localsend.DeviceLook.{hash_step, hash_from, absolute, hash}

-- The characters of a text as the digits of a number in base 31, the first one the highest.
abbrev pub base_31 : Text → ℕ
base_31 [] = 0
base_31 (c ∷ text) = c * 31 ^ length text + base_31 text

hash_step_lem : (value c : ℕ) → value < 2 ^ 32 → hash_step value c ≡ (31 * value + c) % 2 ^ 32
unfolding hash_step
hash_step_lem value c h = omega arith

mod_step : (a c : ℕ) → (31 * (a % 2 ^ 32) + c) % 2 ^ 32 ≡ (31 * a + c) % 2 ^ 32
mod_step a c = omega arith

mod_lt : (a : ℕ) → a % 2 ^ 32 < 2 ^ 32
mod_lt a = omega arith

shift : (a c n r : ℕ) → (31 * a + c) * n + r ≡ a * (n * 31) + (c * n + r)
shift a c n r = grind arith

next_value : (a value c : ℕ) → value ≡ a % 2 ^ 32 → hash_step value c ≡ (31 * a + c) % 2 ^ 32
next_value a value c h =
    hash_step_lem value c (rw h (mod_lt a)) ∙ ap (λ (w : ℕ). (31 * w + c) % 2 ^ 32) h ∙ mod_step a c

hash_from-base_31 :
    (a value : ℕ) (text : Text)
    → value ≡ a % 2 ^ 32
    → hash_from value text ≡ (a * 31 ^ length text + base_31 text) % 2 ^ 32
unfolding hash_from
hash_from-base_31 a value [] h = omega (arith, h)
hash_from-base_31 a value (c ∷ text) h =
    hash_from-base_31 (31 * a + c) (hash_step value c) text (next_value a value c h)
    ∙ ap (λ (w : ℕ). w % 2 ^ 32)
        (rw (pow-suc 31 (length text)) (shift a c (31 ^ length text) (base_31 text)))

-- The hash of a text is the distance from zero of the signed 32-bit integer with the lowest 32 bits
-- of the text read in base 31, and is at most 2^31.
pub hash-base_31 :
    (text : Text) → (hash text ≡ absolute (base_31 text % 2 ^ 32)) × (hash text ≤ 2 ^ 31)
unfolding hash
hash-base_31 text = (ap absolute same, rw same (bounded (base_31 text)))
  where
    same : hash_from 0 text ≡ base_31 text % 2 ^ 32
    same = hash_from-base_31 0 0 text refl ∙ ap (λ (w : ℕ). w % 2 ^ 32) (omega arith)

    bounded : (n : ℕ) → absolute (n % 2 ^ 32) ≤ 2 ^ 31
    bounded n = ground arith
