-- ===== src/Formatting/Units.antt =====
-- qml/components/Formatting.js, fileSize and duration: the units that are chosen.
use native.Mathlib.Nat.{div-mul-le_self, div-lt_iff_lt-mul}
use harbour_localsend.Common.{
  ℕ, ◌+◌, ◌*◌, ◌/◌, ◌%◌, ◌≡◌, ◌≤◌, ◌<◌, ◌⊎◌, refl, arith, false, ◌||◌, Option, none, some, pos, ltb,
  leb, ◌++◌, codes, Bool-cases, inl, inr,
}
use harbour_localsend.Platform.{Platform}
use harbour_localsend.Engine.{Engine, smaller, smaller-IsShare}
use harbour_localsend.Formatting.{scale, nearest, duration, clock_text, pad, percent_of}

-- From a kilobyte on, a size is shown in the largest unit of which there is one, up to terabytes.
pub scale-bounds :
    (bytes : ℕ)
    → 1024 ≤ bytes
    → ((scale 3 0 1024 bytes).1 ≤ bytes)
      × ((bytes < 1024 * (scale 3 0 1024 bytes).1) ⊎ ((scale 3 0 1024 bytes).0 ≡ 3))
unfolding scale
scale-bounds bytes h = elim (Bool-cases (leb (1024 * 1024) bytes)) [
  | inl m ↦ elim (Bool-cases (leb (1024 * (1024 * 1024)) bytes)) [
    | inl g ↦ elim (Bool-cases (leb (1024 * (1024 * (1024 * 1024))) bytes)) [
      | inl t ↦ rw (m, g, t) (ground arith, inr refl)
      | inr t ↦ rw (m, g, t) (ground arith, inl (ground arith))
    ]
    | inr g ↦ rw (m, g) (ground arith, inl (ground arith))
  ]
  | inr m ↦ rw m (h, inl (ground arith))
]

-- The rounding that `toFixed` makes is off by half a unit of the last digit at most.
pub nearest-error :
    (n d : ℕ) → 0 < d → (2 * (nearest n d * d) ≤ 2 * n + d) × (2 * n < 2 * (nearest n d * d) + d)
nearest-error n d h =
    let below : nearest n d * (2 * d) ≤ 2 * n + d = div-mul-le_self (2 * n + d) (2 * d) in
    let above : 2 * n + d < (nearest n d + 1) * (2 * d) =
      (div-lt_iff_lt-mul {k = 2 * d} {x = 2 * n + d} {y = nearest n d + 1} (omega arith)).0
        (omega arith) in
    (grind arith, grind arith)

module _ (q : Platform) where
  -- A time of at least a minute is shown in two units of which the lower stays below sixty, and
  -- which leave less than one lower unit of it: minutes with seconds below an hour, and hours with
  -- minutes from there on.
  pub duration_lem :
      (seconds : ℕ)
      → 60 ≤ seconds
      → (high : ℕ) × (low : ℕ) × (low < 60)
        × ((duration q (some (pos seconds))
                ≡ q.number high ++ (codes "m " ++ (pad q low ++ codes "s")))
              × (high * 60 + low ≡ seconds)
              × (high < 60)
            ⊎ (duration q (some (pos seconds))
                ≡ q.number high ++ (codes "h " ++ (pad q low ++ codes "m")))
              × ((high * 60 + low) * 60 ≤ seconds)
              × (seconds < (high * 60 + low) * 60 + 60))
  unfolding duration clock_text
  duration_lem seconds h = elim (Bool-cases (ltb (seconds / 60) 60)) [
    | inl short ↦ (
      seconds / 60,
      seconds % 60,
      omega arith,
      inl (rw (under seconds h, short) refl, omega arith, ground arith),
    )
    | inr long ↦ (
      seconds / 60 / 60,
      seconds / 60 % 60,
      omega arith,
      inr (rw (under seconds h, long) refl, omega arith, omega arith),
    )
  ]
    where
      under : (s : ℕ) → 60 ≤ s → ltb s 60 ≡ false
      under s k = ground arith

module _ (q : Platform) (j : Engine) where
  open j use {Number, is_less, is_equal, decimal, round_share}

  -- A share of a transfer is never shown as more than a hundred percent.
  pub percent_of-le : (fraction : Option Number) → percent_of q j fraction ≤ 100
  unfolding percent_of
  percent_of-le none = omega arith
  percent_of-le (some fraction) =
      elim (Bool-cases (is_equal fraction (decimal 0 0) || is_less fraction (decimal 0 0))) [
        | inl nothing ↦ rw nothing (omega arith)
        | inr part ↦
            let (low, high) = smaller-IsShare j fraction (ground arith) in
            rw part (round_share (smaller j fraction (decimal 1 0)) 100 low high (omega arith))
      ]
