-- ===== src/Engine/Uri/Points.antt =====
-- encodeURI: how the code points of a text are made of its code units.
use harbour_localsend.Common.{
  ℕ, ◌<◌, ◌≡◌, refl, arith, true, false, ◌||◌, List, [], ◌∷◌, Option, none, some, exists, All, ◌==◌,
  Text, Bool-cases, inl, inr, subst,
}
use mathlib.Core.Option.{some-injective}
use harbour_localsend.Engine.Uri.{is_high, is_low, pair, cons_some, code_points}

pub data Points : Text → List ℕ → Type 0 where
  none_left : Points [] []
  one :
      {c : ℕ} {t : Text} {ps : List ℕ}
      → is_high c ≡ false
      → is_low c ≡ false
      → Points t ps
      → Points (c ∷ t) (c ∷ ps)
  two :
      {c d : ℕ} {t : Text} {ps : List ℕ}
      → is_high c ≡ true
      → is_low d ≡ true
      → Points t ps
      → Points (c ∷ d ∷ t) (pair c d ∷ ps)

cons_some_inv :
    (p : ℕ) (found : Option (List ℕ)) (ps : List ℕ)
    → cons_some p found ≡ some ps
    → (qs : List ℕ) × (found ≡ some qs) × (p ∷ qs ≡ ps)
cons_some_inv p none ps e = cc
cons_some_inv p (some qs) ps e = (qs, refl, some-injective _ _ e)

impossible : (ps : List ℕ) → none ≡ some ps → ⊥
impossible ps e = cc

pub code_points-Points : (t : Text) (ps : List ℕ) → code_points t ≡ some ps → Points t ps
unfolding code_points
code_points-Points [] ps e = subst (Points []) (some-injective _ _ e) none_left
code_points-Points (c ∷ []) ps e = elim (Bool-cases (is_high c || is_low c)) [
  | inl surrogate ↦ absurd (impossible ps (rw surrogate at e))
  | inr plain ↦
      subst (Points (c ∷ [])) (some-injective _ _ (rw plain at e))
        (one (ground arith) (ground arith) none_left)
]
code_points-Points (c ∷ d ∷ t) ps e = elim (Bool-cases (is_high c)) [
  | inl high ↦ elim (Bool-cases (is_low d)) [
    | inl low ↦
        let (qs, found, same) =
          cons_some_inv (pair c d) (code_points t) ps (rw (high, low, code_points) at e) in
        subst (Points (c ∷ d ∷ t)) same (two high low (code_points-Points t qs found))
    | inr other ↦ absurd (impossible ps (rw (high, other, code_points) at e))
  ]
  | inr plain ↦ elim (Bool-cases (is_low c)) [
    | inl low ↦ absurd (impossible ps (rw (plain, low, code_points) at e))
    | inr other ↦
        let (qs, found, same) =
          cons_some_inv c (code_points (d ∷ t)) ps (rw (plain, other, code_points) at e) in
        subst (Points (c ∷ d ∷ t)) same (one plain other (code_points-Points (d ∷ t) qs found))
  ]
]

pub Points-All :
    {t : Text} {ps : List ℕ} → Points t ps → All (λ c. c < 0x10000) t → All (λ p. p < 0x110000) ps
Points-All none_left h = tt
Points-All (one high low more) h = (omega (arith, h.0), Points-All more h.1)
Points-All (two high low more) h = (ground (arith, h.0, h.1.0), Points-All more h.1.1)

-- An ASCII character is among the code points exactly if it is among the code units.
pub Points-exists :
    (mark : ℕ) {t : Text} {ps : List ℕ}
    → mark < 0x80
    → Points t ps
    → exists (λ p. p == mark) ps ≡ exists (λ c. c == mark) t
Points-exists mark low none_left = refl
Points-exists mark low (one h l more) = rw (Points-exists mark low more) refl
Points-exists mark low (two h l more) = ground (arith, Points-exists mark low more)
