-- ===== src/DeviceLook/Initials.antt =====
-- qml/components/DeviceLook.js, initials: what stands in the badge of a device.
use harbour_localsend.Common.{
  ℕ, suc, ◌≤◌, ◌≡◌, refl, sym, arith, Bool, true, false, not, List, [], ◌∷◌, length, is_empty, take,
  exists, All, All-append, if◌then◌else◌, Text, Bool-cases, inl, inr, subst,
}
use harbour_localsend.Engine.{Engine}
use harbour_localsend.DeviceLook.{trim_start, trim_end, onto_first, split, letters_of, initials}

module _ (j : Engine) where
  open j use {is_space, to_upper}

  -- No white space
  abbrev pub IsWord : Text → Type 0
  IsWord = All (λ c. is_space c ≡ false)

  onto_first-IsWord :
      (c : ℕ) (words : List Text)
      → is_space c ≡ false
      → All IsWord words
      → All IsWord (onto_first j c words)
  onto_first-IsWord c [] h v = ((h, tt), tt)
  onto_first-IsWord c (word ∷ words) h v = ((h, v.0), v.1)

  split_first :
      (in_gap : Bool) (c : ℕ) (r : Text)
      → is_space c ≡ false
      → split j in_gap (c ∷ r) ≡ onto_first j c (split j false r)
  unfolding split
  split_first in_gap c r h = rw (h, split) refl

  split_gap :
      (in_gap : Bool) (c : ℕ) (r : Text)
      → is_space c ≡ true
      → split j in_gap (c ∷ r) ≡ (if in_gap then split j true r else [] ∷ split j true r)
  unfolding split
  split_gap in_gap c r h = rw (h, split) refl

  split-IsWord : (in_gap : Bool) (t : Text) → All IsWord (split j in_gap t)
  unfolding split
  split-IsWord in_gap [] = (tt, tt)
  split-IsWord true (c ∷ t) = elim (Bool-cases (is_space c)) [
    | inl gap ↦ subst (All IsWord) (sym (split_gap true c t gap)) (split-IsWord true t)
    | inr letter ↦
        subst (All IsWord) (sym (split_first true c t letter))
          (onto_first-IsWord c _ letter (split-IsWord false t))
  ]
  split-IsWord false (c ∷ t) = elim (Bool-cases (is_space c)) [
    | inl gap ↦ subst (All IsWord) (sym (split_gap false c t gap)) (tt, split-IsWord true t)
    | inr letter ↦
        subst (All IsWord) (sym (split_first false c t letter))
          (onto_first-IsWord c _ letter (split-IsWord false t))
  ]

  take-IsWord : (n : ℕ) (t : Text) → IsWord t → IsWord (take n t)
  take-IsWord ℕ.zero t h = tt
  take-IsWord (suc n) [] h = tt
  take-IsWord (suc n) (c ∷ t) h = (h.0, take-IsWord n t h.1)

  letters_of-IsWord : (words : List Text) → All IsWord words → IsWord (letters_of j words)
  unfolding letters_of
  letters_of-IsWord [] h = tt
  letters_of-IsWord (word ∷ []) h = take-IsWord 2 word h.0
  letters_of-IsWord (first ∷ second ∷ words) h =
      All-append _ (take 1 first) (take 1 second) (take-IsWord 1 first h.0)
        (take-IsWord 1 second h.1.0)

  length-take-le : (n : ℕ) (t : Text) → length (take n t) ≤ n
  length-take-le ℕ.zero t = omega arith
  length-take-le (suc n) [] = omega arith
  length-take-le (suc n) (c ∷ t) = omega (arith, length-take-le n t)

  letters_of-onto_first :
      (c : ℕ) (words : List Text)
      → (1 ≤ length (letters_of j (onto_first j c words)))
        × (length (letters_of j (onto_first j c words)) ≤ 2)
  unfolding letters_of
  letters_of-onto_first c [] = (omega arith, omega arith)
  letters_of-onto_first c (word ∷ []) = (omega arith, omega (arith, length-take-le 1 word))
  letters_of-onto_first c (first ∷ second ∷ words) =
      (omega arith, omega (arith, length-take-le 1 second))

  not_empty : (t : Text) → exists (λ c. not (is_space c)) t ≡ true → is_empty t ≡ false
  not_empty [] h = cc
  not_empty (c ∷ t) h = refl

  -- What `trim` leaves of a text that has more than white space.
  trim_start_first :
      (t : Text)
      → exists (λ c. not (is_space c)) t ≡ true
      → (c : ℕ) × (r : Text) × (trim_start j t ≡ c ∷ r) × (is_space c ≡ false)
  unfolding trim_start
  trim_start_first [] h = cc
  trim_start_first (c ∷ t) h = elim (Bool-cases (is_space c)) [
    | inl gap ↦ rw gap (trim_start_first t (ground arith))
    | inr letter ↦ (c, t, rw letter refl, letter)
  ]

  trim_end_first : (c : ℕ) (r : Text) → is_space c ≡ false → trim_end j (c ∷ r) ≡ c ∷ trim_end j r
  unfolding trim_end
  trim_end_first c r h = ground arith

  -- The letters of an alias that has more than white space, before they are set in upper case: one
  -- or two, and no white space.
  pub initials-letters :
      (alias : Text)
      → exists (λ c. not (is_space c)) alias ≡ true
      → (letters : Text) × (initials j alias ≡ to_upper letters)
        × (1 ≤ length letters)
        × (length letters ≤ 2)
        × IsWord letters
  unfolding initials
  initials-letters alias h =
      let (c, r, start, letter) = trim_start_first alias h in
      let words = split j false (trim_end j r) in
      let (least, most) = letters_of-onto_first c words in
      (
        letters_of j (onto_first j c words),
        rw
            (
              not_empty alias h,
              start,
              trim_end_first c r letter,
              split_first false c (trim_end j r) letter,
            )
            refl,
        least,
        most,
        letters_of-IsWord _ (onto_first-IsWord c words letter (split-IsWord false _)),
      )
