-- ===== src/Decimal/Places.antt =====
-- How many decimals a value has: a column keeps a value that fits in it, and a price on the grid of an
-- instrument has no more decimals than the tick.
use scalper_v.Base.{◌≡◌, refl, true, arith, ℕ, ◌+◌, ◌-◌, ◌*◌, ◌^◌, ◌≤◌, ◌==◌, Bool, if_cases, sym}
use scalper_v.Base.Int.{ℤ, ◌*ℤ◌, pos, negsuc, scale}
use scalper_v.Decimal.{
  Decimal, bias, aligned, ◌≤?◌, ◌=?◌, is_negative, magnitude, signed, fix, excess, carried,
  half_even, precision, ◌*ᵈ◌,
}
use scalper_v.Decimal.Columns.{half_away, column}
use scalper_v.Decimal.Division.{Rounding, rescale, to_integral_value}

-- A value of no more decimals than a column has.
abbrev pub FitsIn : ℕ → Decimal → Type 0
FitsIn places a = bias - places ≤ a.exp

half_away-whole : (n k : ℕ) → k ≡ 0 → half_away n k ≡ n
unfolding half_away
half_away-whole n k h = rw h (omega arith)

same_scale : (a : ℤ) (k : ℕ) → scale (signed (is_negative a) (magnitude a * k)) 1 ≡ scale a k
unfolding scale signed is_negative magnitude
same_scale (pos n) k = ground arith
same_scale (negsuc n) k = ground arith

equal_aligned : (a b : Decimal) → aligned a b ≡ aligned b a → (a =? b) ≡ true
unfolding ◌=?◌ ◌≤?◌
equal_aligned a b h = rw h (ground arith)

column-aligned :
    (places : ℕ) (a : Decimal)
    → FitsIn places a
    → aligned a (column places a) ≡ aligned (column places a) a
unfolding column
column-aligned places a h =
    let e = bias - places in
    rw
      (
        half_away-whole (magnitude a.coeff * 10 ^ (a.exp - e)) (e - a.exp) (omega (arith, h)),
        the_zero (e - a.exp) (omega (arith, h)),
      )
      (sym (same_scale a.coeff (10 ^ (a.exp - e))))
  where
    the_zero : (k : ℕ) → k ≡ 0 → 10 ^ k ≡ 1
    the_zero k z = rw z refl

-- A column keeps a value that fits in it.
pub column-kept : (places : ℕ) (a : Decimal) → FitsIn places a → (a =? column places a) ≡ true
column-kept places a h = equal_aligned a (column places a) (column-aligned places a h)

carried-exp : (s : Bool) (n e : ℕ) → e ≤ (carried s n e).exp
unfolding carried
carried-exp s n e = ground arith

fix-exp : (a : Decimal) → a.exp ≤ (fix a).exp
unfolding fix
fix-exp a =
    let n = magnitude a.coeff in
    let k = excess n precision n in
    let s = is_negative a.coeff in
    if_cases (λ x. a.exp ≤ x.exp) (k == 0) a (carried s (half_even n k) (a.exp + k))
      (λ e. omega arith) (λ e. omega (arith, carried-exp s (half_even n k) (a.exp + k)))

pub *ᵈ-exp : (a b : Decimal) → a.exp + b.exp - bias ≤ (a *ᵈ b).exp
unfolding ◌*ᵈ◌
*ᵈ-exp a b = fix-exp (record { coeff = a.coeff *ℤ b.coeff; exp = a.exp + b.exp - bias })

pub to_integral_value-exp : (mode : Rounding) (a : Decimal) → bias ≤ (to_integral_value mode a).exp
unfolding to_integral_value rescale
to_integral_value-exp mode a = ground arith
