-- ===== src/Common/Assoc.antt =====
-- A QHash keyed by texts, as an association list: the list's order stands for the hash's
-- iteration order, which the source never relies on.
use Prim.Native.Nat.{suc, ◌≤◌}
use mathlib.Core.Path.{◌≡◌, refl}
use mathlib.Core.Bool.{Bool, true, false}
use mathlib.Core.List.{List, [], ◌∷◌}
use mathlib.Core.Option.{Option, none, some}
use native.Mathlib.Omega.{arith}
use harbour_localsend.Common.Tests.{if◌then◌else◌}
use harbour_localsend.Common.Lists.{length}
use harbour_localsend.Common.Texts.{Text, text_eq, text_eq_iff}

module _ {ℓ} {V : Type ℓ} where
  -- QHash::constFind
  unfoldable pub find : Text → List (Text × V) → Option V
  find k [] = none
  find k ((j, v) ∷ m) = if text_eq j k then some v else find k m

  -- QHash::contains
  unfoldable pub contains : Text → List (Text × V) → Bool
  contains k [] = false
  contains k ((j, v) ∷ m) = if text_eq j k then true else contains k m

  -- QHash::insert: replaces the value of a key that is there.
  unfoldable pub insert : Text → V → List (Text × V) → List (Text × V)
  insert k v [] = (k, v) ∷ []
  insert k v ((j, w) ∷ m) = if text_eq j k then (k, v) ∷ m else (j, w) ∷ insert k v m

  -- QHash::remove
  unfoldable pub remove : Text → List (Text × V) → List (Text × V)
  remove k [] = []
  remove k ((j, v) ∷ m) = if text_eq j k then remove k m else (j, v) ∷ remove k m

  pub find-insert :
      (k j : Text) (v : V) (m : List (Text × V))
      → find j (insert k v m) ≡ (if text_eq k j then some v else find j m)
  unfolding find insert
  find-insert k j v [] = refl
  find-insert k j v ((i, w) ∷ m) =
      ground (arith, text_eq_iff k j, text_eq_iff i k, text_eq_iff i j, find-insert k j v m)

  pub find-remove :
      (k j : Text) (m : List (Text × V))
      → find j (remove k m) ≡ (if text_eq k j then none else find j m)
  unfolding find remove
  find-remove k j [] = ground arith
  find-remove k j ((i, w) ∷ m) =
      ground (arith, text_eq_iff k j, text_eq_iff i k, text_eq_iff i j, find-remove k j m)

  pub length-insert :
      (k : Text) (v : V) (m : List (Text × V))
      → length (insert k v m) ≡ (if contains k m then length m else suc (length m))
  unfolding contains insert
  length-insert k v [] = refl
  length-insert k v ((i, w) ∷ m) = ground (arith, length-insert k v m)

  pub length-remove-le : (k : Text) (m : List (Text × V)) → length (remove k m) ≤ length m
  unfolding remove
  length-remove-le k [] = omega arith
  length-remove-le k ((i, w) ∷ m) = ground (arith, length-remove-le k m)

  pub contains-find : (k : Text) (m : List (Text × V)) → contains k m ≡ false → find k m ≡ none
  unfolding contains find
  contains-find k [] h = refl
  contains-find k ((i, w) ∷ m) h = ground (arith, contains-find k m)

  pub contains_of_find :
      (k : Text) (m : List (Text × V)) {v : V} → find k m ≡ some v → contains k m ≡ true
  unfolding contains find
  contains_of_find k [] h = cc
  contains_of_find k ((i, w) ∷ m) {v} h = ground (arith, contains_of_find k m {v = v})
