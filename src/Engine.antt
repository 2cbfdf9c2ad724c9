-- ===== src/Engine.antt =====
-- What the page helpers take from the QML engine's JavaScript: its numbers, of which only the order
-- and the rounding are relied on, and its white space and upper case. A number that is not a number
-- (NaN) does not come up.
pub mod Fractions
pub mod Uri
use harbour_localsend.Common.{ℕ, ◌≤◌, ◌≡◌, arith, Bool, true, false, if◌then◌else◌, Text}

pub record Engine : Type 1 where
  pub Number : Type 0
  -- `decimal n k` is the literal with the digits of `n` and `k` of them behind the point.
  pub decimal : ℕ → ℕ → Number
  pub plus : Number → Number → Number
  pub minus : Number → Number → Number
  pub times : Number → Number → Number
  pub over : Number → Number → Number
  -- `%`
  pub rest : Number → Number → Number
  pub is_less : Number → Number → Bool
  pub is_equal : Number → Number → Bool
  -- Math.round of a number that is not negative
  pub round : Number → ℕ
  pub is_less_asym : (a b : Number) → is_less a b ≡ true → is_less b a ≡ false
  pub is_less_irrefl : (a : Number) → is_less a a ≡ false
  pub zero_less_one : is_less (decimal 0 0) (decimal 1 0) ≡ true
  -- A share of a whole number that a double holds exactly rounds to at most that number.
  pub round_share :
      (v : Number) (n : ℕ)
      → is_less v (decimal 0 0) ≡ false
      → is_less (decimal 1 0) v ≡ false
      → n ≤ 1000
      → round (times v (decimal n 0)) ≤ n
  -- the characters that `trim` and `\s` take for white space
  pub is_space : ℕ → Bool
  -- String.prototype.toUpperCase
  pub to_upper : Text → Text

module _ (j : Engine) where
  open j use {Number, decimal, is_less, is_less_asym, is_less_irrefl, zero_less_one}

  -- Math.min and Math.max
  abbrev pub smaller : Number → Number → Number
  smaller a b = if is_less b a then b else a

  abbrev pub larger : Number → Number → Number
  larger a b = if is_less a b then b else a

  abbrev pub IsShare : Number → Type 0
  IsShare v = (is_less v (decimal 0 0) ≡ false) × (is_less (decimal 1 0) v ≡ false)

  -- `Math.min(v, 1)` of a number that is not negative, and `Math.max(0, Math.min(1, v))` of any.
  pub smaller-IsShare :
      (v : Number) → is_less v (decimal 0 0) ≡ false → IsShare (smaller v (decimal 1 0))
  smaller-IsShare v h =
      ground (
        arith,
        is_less_asym (decimal 0 0) (decimal 1 0) zero_less_one,
        is_less_irrefl (decimal 1 0),
      )

  pub larger-IsShare : (v : Number) → IsShare (larger (decimal 0 0) (smaller (decimal 1 0) v))
  larger-IsShare v = ground (
    arith,
    is_less_asym (decimal 0 0) (decimal 1 0) zero_less_one,
    is_less_irrefl (decimal 1 0),
    is_less_irrefl (decimal 0 0),
    is_less_asym v (decimal 1 0),
    is_less_asym (decimal 0 0) v,
  )
