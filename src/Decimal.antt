-- ===== src/Decimal.antt =====
-- Python's `decimal.Decimal` in its default context, as the sources use it: a signed coefficient
-- with a decimal exponent, 28 significant digits, and rounding half to even. A value is
-- `coeff * 10 ^ (exp - bias)`. The bias is the least exponent of the context, so that a stored
-- exponent is a natural number. Infinities, NaN, the sign of zero and the loss of digits below the
-- least exponent are left out, and two representations of one value are not told apart by any
-- comparison.
pub mod Division
pub mod Columns
pub mod Places
pub mod Order
mod Examples
use scalper_v.Base.{
  ℕ, zero, suc, ◌+◌, ◌-◌, ◌*◌, ◌/◌, ◌%◌, ◌^◌, Bool, true, false, ltb, leb, ◌==◌, if◌then◌else◌,
  ◌&&◌,
}
use scalper_v.Base.Int.{ℤ, pos, negsuc, pos_part, neg_part, sub_ℕ, scale, ◌+ℤ◌, ◌*ℤ◌, ltb_ℤ, leb_ℤ}

pub record Decimal : Type 0 where
  pub coeff : ℤ
  pub exp : ℕ

abbrev pub bias : ℕ
bias = 1_000_026

-- `Decimal("n")` and `Decimal` of `n` units in the given decimal place.
abbrev pub int : ℤ → Decimal
int n = record { coeff = n; exp = bias }

abbrev pub fixed : ℤ → ℕ → Decimal
fixed n places = record { coeff = n; exp = bias - places }

-- The coefficients over the lesser exponent of the two.
abbrev pub aligned : Decimal → Decimal → ℤ
aligned a b = scale a.coeff (10 ^ (a.exp - b.exp))

infix 50 ◌<?◌ ◌≤?◌ ◌=?◌
unfoldable pub ◌<?◌ : Decimal → Decimal → Bool
unfolding scale
a <? b = ltb_ℤ (aligned a b) (aligned b a)

unfoldable pub ◌≤?◌ : Decimal → Decimal → Bool
unfolding scale
a ≤? b = leb_ℤ (aligned a b) (aligned b a)

unfoldable pub ◌=?◌ : Decimal → Decimal → Bool
unfolding ◌≤?◌
a =? b = (a ≤? b) && (b ≤? a)

-- Python's `min(a, b)` and `max(a, b)` keep the first of two equal values.
unfoldable pub min_dec : Decimal → Decimal → Decimal
unfolding ◌<?◌
min_dec a b = if b <? a then b else a

unfoldable pub max_dec : Decimal → Decimal → Decimal
unfolding ◌<?◌
max_dec a b = if a <? b then b else a

-- How many digits of `n` stand past the first `keep`, by at most `fuel` divisions.
unfoldable pub excess : ℕ → ℕ → ℕ → ℕ
excess zero keep n = 0
excess (suc fuel) keep n =
    let rest = suc (excess fuel keep (n / 10)) in if ltb n (10 ^ keep) then 0 else rest

unfoldable pub digits : ℕ → ℕ
unfolding excess
digits n = excess n 0 n

-- `n` over 10 ^ k, rounded half to even.
unfoldable pub half_even : ℕ → ℕ → ℕ
half_even n k =
    let q = n / 10 ^ k in
    let twice = 2 * (n % 10 ^ k) in
    if ltb twice (10 ^ k)
    then q
    else if ltb (10 ^ k) twice
    then q + 1
    else if q % 2 == 0
    then q
    else q + 1

unfoldable pub signed : Bool → ℕ → ℤ
signed true n = sub_ℕ 0 n
signed false n = pos n

unfoldable pub is_negative : ℤ → Bool
is_negative (pos n) = false
is_negative (negsuc n) = true

unfoldable pub magnitude : ℤ → ℕ
magnitude n = pos_part n + neg_part n

abbrev pub precision : ℕ
precision = 28

-- A carry out of the rounding shifts one more digit.
unfoldable pub carried : Bool → ℕ → ℕ → Decimal
unfolding signed
carried s n e =
    if n == 10 ^ precision
    then record { coeff = signed s (10 ^ 27); exp = e + 1 }
    else record { coeff = signed s n; exp = e }

-- `_fix`: a result rounded to the context's precision.
unfoldable pub fix : Decimal → Decimal
unfolding excess carried is_negative magnitude half_even
fix a =
    let n = magnitude a.coeff in
    let k = excess n precision n in
    if k == 0 then a else carried (is_negative a.coeff) (half_even n k) (a.exp + k)

min_exp : ℕ → ℕ → ℕ
min_exp a b = if leb a b then a else b

infixl 65 ◌+ᵈ◌ ◌-ᵈ◌
infixl 70 ◌*ᵈ◌
unfoldable pub ◌+ᵈ◌ : Decimal → Decimal → Decimal
unfolding fix min_exp scale ◌+ℤ◌
a +ᵈ b = fix (record { coeff = aligned a b +ℤ aligned b a; exp = min_exp a.exp b.exp })

abbrev pub copy_negate : Decimal → Decimal
copy_negate a = record a { coeff = sub_ℕ (neg_part a.coeff) (pos_part a.coeff) }

unfoldable pub ◌-ᵈ◌ : Decimal → Decimal → Decimal
unfolding ◌+ᵈ◌
a -ᵈ b = a +ᵈ copy_negate b

unfoldable pub neg_dec : Decimal → Decimal
unfolding fix
neg_dec a = fix (copy_negate a)

unfoldable pub abs_dec : Decimal → Decimal
unfolding fix magnitude
abs_dec a = fix (record a { coeff = pos (magnitude a.coeff) })

unfoldable pub ◌*ᵈ◌ : Decimal → Decimal → Decimal
unfolding fix ◌*ℤ◌
a *ᵈ b = fix (record { coeff = a.coeff *ℤ b.coeff; exp = a.exp + b.exp - bias })
