-- ===== src/Formatting/Groups.antt =====
-- qml/components/Formatting.js, fingerprintGroups: nothing of a fingerprint is lost.
use harbour_localsend.Common.{
  ℕ, zero, suc, ◌+◌, ◌≡◌, ◌≤◌, refl, ap, ap₂, ◌∙◌, arith, Bool, false, not, ◌||◌, [], ◌∷◌, ◌++◌,
  length, take, drop, keep, All, ◌==◌, Text,
}
use harbour_localsend.Formatting.{separator, groups_from, fingerprint_groups}

abbrev pub is_gap : ℕ → Bool
is_gap c = c == b' ' || c == 10

abbrev pub NoGap : Text → Type 0
NoGap = All (λ c. is_gap c ≡ false)

-- A text without its gaps.
abbrev pub closed_up : Text → Text
closed_up = keep (λ c. not (is_gap c))

closed_up-append : (s t : Text) → closed_up (s ++ t) ≡ closed_up s ++ closed_up t
closed_up-append [] t = refl
closed_up-append (c ∷ s) t = ground (arith, closed_up-append s t)

closed_up_same : (t : Text) → NoGap t → closed_up t ≡ t
closed_up_same [] h = refl
closed_up_same (c ∷ t) h = ground (arith, h.0, closed_up_same t h.1)

closed_up-separator : (i : ℕ) → closed_up (separator i) ≡ []
closed_up-separator i = ground arith

take-drop : (n : ℕ) (t : Text) → take n t ++ drop n t ≡ t
take-drop zero t = refl
take-drop (suc n) [] = refl
take-drop (suc n) (c ∷ t) = ap (λ s. c ∷ s) (take-drop n t)

NoGap-take : (n : ℕ) (t : Text) → NoGap t → NoGap (take n t)
NoGap-take zero t h = tt
NoGap-take (suc n) [] h = tt
NoGap-take (suc n) (c ∷ t) h = (h.0, NoGap-take n t h.1)

NoGap-drop : (n : ℕ) (t : Text) → NoGap t → NoGap (drop n t)
NoGap-drop zero t h = h
NoGap-drop (suc n) [] h = tt
NoGap-drop (suc n) (c ∷ t) h = NoGap-drop n t h.1

length-drop-le : (n : ℕ) (t : Text) → length (drop n t) ≤ length t
length-drop-le zero t = omega arith
length-drop-le (suc n) [] = omega arith
length-drop-le (suc n) (c ∷ t) = omega (arith, length-drop-le n t)

closed_up-groups_from :
    (rounds i : ℕ) (t : Text) → NoGap t → length t ≤ rounds → closed_up (groups_from rounds i t) ≡ t
unfolding groups_from
closed_up-groups_from zero i [] h le = refl
closed_up-groups_from zero i (c ∷ t) h le = absurd (omega arith)
closed_up-groups_from (suc rounds) i [] h le = refl
closed_up-groups_from (suc rounds) i (c ∷ t) h le =
    closed_up-append (separator i) _
    ∙ ap₂ (λ x y. x ++ y) (closed_up-separator i)
        (closed_up-append (take 8 (c ∷ t)) _
          ∙ ap₂ (λ x y. x ++ y) (closed_up_same (take 8 (c ∷ t)) (NoGap-take 8 (c ∷ t) h))
              (closed_up-groups_from rounds (i + 8) (drop 8 (c ∷ t)) (NoGap-drop 8 (c ∷ t) h)
                (omega (arith, length-drop-le 7 t))))
    ∙ take-drop 8 (c ∷ t)

-- What the pages show of a fingerprint without gaps is, with the gaps taken out, the fingerprint.
pub closed_up-fingerprint_groups :
    (fingerprint : Text)
    → NoGap fingerprint
    → closed_up (fingerprint_groups fingerprint) ≡ fingerprint
unfolding fingerprint_groups
closed_up-fingerprint_groups fingerprint h =
    closed_up-groups_from (length fingerprint) 0 fingerprint h (omega arith)
