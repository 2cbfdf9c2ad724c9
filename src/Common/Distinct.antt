-- ===== src/Common/Distinct.antt =====
-- The invariant of a QHash, that no key stands twice, and what follows for iterators that erase.
use Prim.Native.Nat.{◌≤◌}
use mathlib.Core.Path.{◌≡◌, refl}
use mathlib.Core.Bool.{Bool, true, false}
use mathlib.Core.List.{List, [], ◌∷◌}
use mathlib.Core.Option.{Option, none, some}
use native.Mathlib.Omega.{arith}
use harbour_localsend.Common.Tests.{if◌then◌else◌}
use harbour_localsend.Common.Lists.{length, All}
use harbour_localsend.Common.Texts.{Text, text_eq, text_eq_iff}
use harbour_localsend.Common.Assoc.{find, contains, insert, remove, contains-find}

module _ {ℓ} {V : Type ℓ} where
  abbrev pub KeysDistinct : List (Text × V) → Type 0
  KeysDistinct [] = Unit
  KeysDistinct ((k, v) ∷ m) = (contains k m ≡ false) × KeysDistinct m

  -- The loop `it = erase(it)` / `++it` over the whole hash.
  unfoldable pub keep_values : (V → Bool) → List (Text × V) → List (Text × V)
  keep_values p [] = []
  keep_values p ((k, v) ∷ m) = if p v then (k, v) ∷ keep_values p m else keep_values p m

  abbrev pub filter_value : (V → Bool) → Option V → Option V
  filter_value p none = none
  filter_value p (some v) = if p v then some v else none

  contains-keep_values :
      (p : V → Bool) (k : Text) (m : List (Text × V))
      → contains k m ≡ false
      → contains k (keep_values p m) ≡ false
  unfolding keep_values contains
  contains-keep_values p k [] h = refl
  contains-keep_values p k ((j, v) ∷ m) h = ground (arith, contains-keep_values p k m)

  pub keep_values-KeysDistinct :
      (p : V → Bool) (m : List (Text × V)) → KeysDistinct m → KeysDistinct (keep_values p m)
  unfolding keep_values
  keep_values-KeysDistinct p [] d = tt
  keep_values-KeysDistinct p ((j, v) ∷ m) d =
      ground (arith, contains-keep_values p j m, keep_values-KeysDistinct p m d.1)

  pub find-keep_values :
      (p : V → Bool) (k : Text) (m : List (Text × V))
      → KeysDistinct m
      → find k (keep_values p m) ≡ filter_value p (find k m)
  unfolding keep_values find
  find-keep_values p k [] d = refl
  find-keep_values p k ((j, v) ∷ m) d =
      ground (arith, text_eq_iff j k, find-keep_values p k m d.1, contains-find k m)

  pub keep_values-All :
      (p : V → Bool) (m : List (Text × V)) → All (λ b. p b.1 ≡ true) m → keep_values p m ≡ m
  unfolding keep_values
  keep_values-All p [] h = refl
  keep_values-All p ((k, v) ∷ m) (e, h) = rw (e, keep_values-All p m h)

  pub length-keep_values-le :
      (p : V → Bool) (m : List (Text × V)) → length (keep_values p m) ≤ length m
  unfolding keep_values
  length-keep_values-le p [] = omega arith
  length-keep_values-le p ((j, v) ∷ m) = ground (arith, length-keep_values-le p m)

  contains-insert :
      (k j : Text) (v : V) (m : List (Text × V))
      → contains j (insert k v m) ≡ (if text_eq k j then true else contains j m)
  unfolding contains insert
  contains-insert k j v [] = refl
  contains-insert k j v ((i, w) ∷ m) =
      ground (arith, text_eq_iff k j, text_eq_iff i k, text_eq_iff i j, contains-insert k j v m)

  pub insert-KeysDistinct :
      (k : Text) (v : V) (m : List (Text × V)) → KeysDistinct m → KeysDistinct (insert k v m)
  unfolding insert contains
  insert-KeysDistinct k v [] d = (refl, tt)
  insert-KeysDistinct k v ((i, w) ∷ m) d = ground (
    arith,
    text_eq_iff i k,
    text_eq_iff k i,
    contains-insert k i v m,
    insert-KeysDistinct k v m d.1,
  )

  contains-remove :
      (k j : Text) (m : List (Text × V)) → contains j m ≡ false → contains j (remove k m) ≡ false
  unfolding contains remove
  contains-remove k j [] h = refl
  contains-remove k j ((i, w) ∷ m) h = ground (arith, contains-remove k j m)

  pub remove-KeysDistinct :
      (k : Text) (m : List (Text × V)) → KeysDistinct m → KeysDistinct (remove k m)
  unfolding remove
  remove-KeysDistinct k [] d = tt
  remove-KeysDistinct k ((i, w) ∷ m) d =
      ground (arith, contains-remove k i m, remove-KeysDistinct k m d.1)
