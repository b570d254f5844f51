-- ===== src/Scoring/Float.antt =====
-- Python's `float`, an IEEE binary64, as the evaluator uses it: a value is
-- `coeff * 2 ^ (exp - 1074)` with a coefficient of at most 53 bits. Infinities, NaN and the sign of
-- zero are left out, so a sum past the greatest float is not one here.
use scalper_v.Base.{ℕ, zero, suc, ◌+◌, ◌-◌, ◌*◌, ◌/◌, ◌%◌, ◌^◌, Bool, ltb, leb, ◌==◌, if◌then◌else◌}
use scalper_v.Base.Int.{ℤ, pos, scale, ◌+ℤ◌, leb_ℤ}
use scalper_v.Decimal.{signed, is_negative, magnitude}

pub record Float : Type 0 where
  pub coeff : ℤ
  pub exp : ℕ

abbrev pub one_exp : ℕ
one_exp = 1074

-- `n / 2 ^ k` for `k` of at most 1074, and `0.0`
abbrev pub over_pow : ℤ → ℕ → Float
over_pow n k = record { coeff = n; exp = one_exp - k }

abbrev pub zero_float : Float
zero_float = over_pow (pos 0) 0

abbrev aligned_float : Float → Float → ℤ
aligned_float a b = scale a.coeff (2 ^ (a.exp - b.exp))

-- How many bits of `n` stand past the 53rd, by at most `fuel` halvings.
unfoldable excess_bits : ℕ → ℕ → ℕ
excess_bits zero n = 0
excess_bits (suc fuel) n =
    let rest = suc (excess_bits fuel (n / 2)) in if ltb n (2 ^ 53) then 0 else rest

-- `n` over 2 ^ k, rounded half to even.
unfoldable half_even_bits : ℕ → ℕ → ℕ
half_even_bits n k =
    let q = n / 2 ^ k in
    let twice = 2 * (n % 2 ^ k) in
    if ltb twice (2 ^ k)
    then q
    else if ltb (2 ^ k) twice
    then q + 1
    else if q % 2 == 0
    then q
    else q + 1

unfoldable rounded_float : ℤ → ℕ → Float
unfolding excess_bits half_even_bits signed is_negative magnitude
rounded_float c e =
    let n = magnitude c in
    let k = excess_bits n n in
    record { coeff = signed (is_negative c) (half_even_bits n k); exp = e + k }

infixl 65 ◌+ᶠ◌
unfoldable pub ◌+ᶠ◌ : Float → Float → Float
unfolding rounded_float ◌+ℤ◌ scale
a +ᶠ b =
    rounded_float (aligned_float a b +ℤ aligned_float b a)
      (if leb a.exp b.exp then a.exp else b.exp)

-- `a >= b`
unfoldable pub at_least : Float → Float → Bool
unfolding scale
at_least a b = leb_ℤ (aligned_float b a) (aligned_float a b)
