-- ===== src/Engine/Fractions.antt =====
-- An engine with exact fractions for its numbers, at which the tests run. A fraction is a difference
-- of two whole numbers over a third; `over` and `rest` are for numbers that are not negative.
use harbour_localsend.Common.{
  ℕ, suc, ◌+◌, ◌-◌, ◌*◌, ◌/◌, ◌%◌, ◌^◌, ◌≤◌, ◌<◌, ◌≡◌, refl, arith, Bool, true, false, ◌&&◌, ◌||◌,
  ltb, leb, ◌==◌, map, if◌then◌else◌,
}
use native.Mathlib.Nat.{mul-sub}
use harbour_localsend.Engine.{Engine}

-- (plus - minus) / (below + 1)
pub record Fraction : Type 0 where
  pub gain : ℕ
  pub loss : ℕ
  pub below : ℕ

abbrev den : Fraction → ℕ
den a = suc a.below

abbrev less : Fraction → Fraction → Bool
less a b = ltb (a.gain * den b + b.loss * den a) (b.gain * den a + a.loss * den b)

abbrev fraction : ℕ → ℕ → Fraction
fraction n k = record { gain = n; loss = 0; below = 10 ^ k - 1 }

abbrev product : Fraction → Fraction → Fraction
product a b = record {
  gain = a.gain * b.gain + a.loss * b.loss;
  loss = a.gain * b.loss + a.loss * b.gain;
  below = den a * den b - 1;
}

abbrev rounded : Fraction → ℕ
rounded a = (2 * (a.gain - a.loss) + den a) / (2 * den a)

pub less_asym : (a b : Fraction) → less a b ≡ true → less b a ≡ false
less_asym a b h = ground arith

pub less_irrefl : (a : Fraction) → less a a ≡ false
less_irrefl a = ground arith

share_le : (d n b : ℕ) → d ≤ b → d * n ≤ b * n
share_le d n b h = grind arith

nearest_le : (d n b : ℕ) → d ≤ b → 0 < b → (2 * (d * n) + b) / (2 * b) ≤ n
nearest_le d n b h p = grind (arith, share_le d n b h)

minus_times : (g l n : ℕ) → g * n + l * 0 - (g * 0 + l * n) ≡ (g - l) * n
minus_times g l n = grind (arith, mul-sub n g l)

pub round_share_lem :
    (v : Fraction) (n : ℕ)
    → less v (fraction 0 0) ≡ false
    → less (fraction 1 0) v ≡ false
    → n ≤ 1000
    → rounded (product v (fraction n 0)) ≤ n
round_share_lem v n h k small = grind (
  arith,
  minus_times v.gain v.loss n,
  nearest_le (v.gain - v.loss) n (suc v.below) (grind arith) (omega arith),
)

abbrev upper : ℕ → ℕ
upper c = if leb b'a' c && leb c b'z' then c - 32 else c

abbrev pub fractions : Engine
fractions = record {
  Number = Fraction;
  decimal = fraction;
  plus = λ a b. record {
    gain = a.gain * den b + b.gain * den a;
    loss = a.loss * den b + b.loss * den a;
    below = den a * den b - 1;
  };
  minus = λ a b. record {
    gain = a.gain * den b + b.loss * den a;
    loss = a.loss * den b + b.gain * den a;
    below = den a * den b - 1;
  };
  times = product;
  over = λ a b. record {
    gain = (a.gain - a.loss) * den b;
    loss = 0;
    below = den a * (b.gain - b.loss) - 1;
  };
  rest = λ a b. record {
    gain = ((a.gain - a.loss) * den b) % ((b.gain - b.loss) * den a);
    loss = 0;
    below = den a * den b - 1;
  };
  is_less = less;
  is_equal = λ a b. a.gain * den b + b.loss * den a == b.gain * den a + a.loss * den b;
  round = rounded;
  is_less_asym = less_asym;
  is_less_irrefl = less_irrefl;
  zero_less_one = refl;
  round_share = round_share_lem;
  is_space = λ c. c == b' ' || (leb 9 c && leb c 13);
  to_upper = map upper;
}
