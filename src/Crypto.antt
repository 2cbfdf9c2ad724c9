-- ===== src/Crypto.antt =====
-- src/crypto.cpp: the comparisons. The ciphers, the key derivation and the random numbers are
-- OpenSSL's.
mod Tests
use harbour_localsend.Common.{
  ℕ, ◌≡◌, ◌↔◌, refl, ap, arith, Bool, true, false, not, List, [], ◌∷◌, length, is_empty, ◌==◌,
  ==_iff, if◌then◌else◌, Text,
}
use harbour_localsend.Platform.{Platform}

module _ (q : Platform) where
  open q use {memcmp, memcmp_iff, to_utf8, to_upper}

  -- `equals` on byte arrays
  unfoldable pub equals_bytes : Text → Text → Bool
  equals_bytes left right =
      if not (length left == length right)
      then false
      else if is_empty left
      then true
      else memcmp left right == 0

  -- `equals` on strings
  unfoldable pub equals : Text → Text → Bool
  equals left right = equals_bytes (to_utf8 left) (to_utf8 right)

  unfoldable pub equals_fold : Text → Text → Bool
  equals_fold left right = equals (to_upper left) (to_upper right)

  -- The comparison of byte arrays with its two shortcuts is equality.
  pub equals_bytes_iff : (left right : Text) → (equals_bytes left right ≡ true) ↔ (left ≡ right)
  unfolding equals_bytes
  equals_bytes_iff [] [] = ground arith
  equals_bytes_iff [] (b ∷ right) = ground arith
  equals_bytes_iff (a ∷ left) [] = ground arith
  equals_bytes_iff (a ∷ left) (b ∷ right) =
      ground (
        arith,
        memcmp_iff (a ∷ left) (b ∷ right),
        ap (length {A = ℕ}) {x = a ∷ left} {y = b ∷ right},
      )

  pub equals_refl : (t : Text) → equals t t ≡ true
  unfolding equals
  equals_refl t = (equals_bytes_iff (to_utf8 t) (to_utf8 t)).1 refl

  -- Two fingerprints that differ in case only are the same.
  pub equals_fold_iff :
      (left right : Text)
      → (equals_fold left right ≡ true) ↔ (to_utf8 (to_upper left) ≡ to_utf8 (to_upper right))
  unfolding equals_fold equals
  equals_fold_iff left right = equals_bytes_iff _ _
