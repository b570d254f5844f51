-- ===== src/Decimal/Division.antt =====
-- Division, truncating division, and rounding to a fixed exponent, as `decimal.Decimal` has them.
-- `none` stands for the exception that the operation raises.
use scalper_v.Base.{
  ◌≡◌, ◌≢◌, arith, ℕ, zero, suc, ◌+◌, ◌-◌, ◌*◌, ◌/◌, ◌%◌, ◌^◌, Bool, true, false, Option, none,
  some, leb, ltb, ◌==◌, if◌then◌else◌,
}
use scalper_v.Decimal.{
  Decimal, int, bias, precision, fix, digits, magnitude, is_negative, signed, half_even,
}

pub data Rounding : Type 0 where
  round_floor round_ceiling round_half_even : Rounding

opposite : Bool → Bool → Bool
opposite true b = if b then false else true
opposite false b = b

-- The quotient's last digit is made odd to 5 where digits are lost, so that `fix` rounds correctly.
sticky : ℕ → ℕ → ℕ
sticky zero q = q
sticky (suc r) q = if q % 5 == 0 then q + 1 else q

-- The quotient by a divisor other than zero.
unfoldable pub quotient : Decimal → Decimal → Decimal
unfolding fix digits magnitude is_negative signed opposite sticky
quotient a b =
    let n = magnitude a.coeff in
    let d = magnitude b.coeff in
    let up = digits d + precision + 1 - digits n in
    let down = digits n - (digits d + precision + 1) in
    let num = n * 10 ^ up in
    let den = d * 10 ^ down in
    let negative = opposite (is_negative a.coeff) (is_negative b.coeff) in
    fix (record {
      coeff = signed negative (sticky (num % den) (num / den));
      exp = a.exp + bias + down - (b.exp + up);
    })

-- `a / b`; `DivisionByZero` is `none`. An exact quotient keeps trailing zeros that Python strips.
unfoldable pub ◌/ᵈ◌ : Decimal → Decimal → Option Decimal
unfolding quotient magnitude
◌/ᵈ◌ a b = if magnitude b.coeff == 0 then none else some (quotient a b)

infixl 70 ◌/ᵈ◌
-- `a // b` rounds toward zero; a quotient of more digits than the precision raises.
unfoldable pub ◌//ᵈ◌ : Decimal → Decimal → Option Decimal
unfolding magnitude is_negative signed opposite
◌//ᵈ◌ a b =
    let d = magnitude b.coeff * 10 ^ (b.exp - a.exp) in
    let q = magnitude a.coeff * 10 ^ (a.exp - b.exp) / d in
    if d == 0
    then none
    else if leb (10 ^ precision) q
    then none
    else some (int (signed (opposite (is_negative a.coeff) (is_negative b.coeff)) q))

infixl 70 ◌//ᵈ◌
-- A magnitude over 10 ^ k under a rounding mode.
unfoldable pub rounded : Rounding → Bool → ℕ → ℕ → ℕ
unfolding half_even
rounded round_half_even negative n k = half_even n k
rounded round_floor negative n k =
    let q = n / 10 ^ k in if negative then (if n % 10 ^ k == 0 then q else q + 1) else q
rounded round_ceiling negative n k =
    let q = n / 10 ^ k in if negative then q else (if n % 10 ^ k == 0 then q else q + 1)

-- `_rescale`: the same value at another exponent.
unfoldable pub rescale : Rounding → Decimal → ℕ → Decimal
unfolding rounded magnitude is_negative signed
rescale mode a e =
    let negative = is_negative a.coeff in
    let n = magnitude a.coeff * 10 ^ (a.exp - e) in
    record { coeff = signed negative (rounded mode negative n (e - a.exp)); exp = e }

-- `a.quantize(Decimal(10) ** -places)`; a result of more digits than the precision raises.
unfoldable pub quantize : Decimal → ℕ → Option Decimal
unfolding rescale magnitude
quantize a places =
    let r = rescale round_half_even a (bias - places) in
    if ltb (magnitude r.coeff) (10 ^ precision) then some r else none

-- `a.to_integral_value(rounding=mode)`
unfoldable pub to_integral_value : Rounding → Decimal → Decimal
unfolding rescale
to_integral_value mode a = if leb bias a.exp then a else rescale mode a bias

if_nonzero : (n : ℕ) (x : Option Decimal) → n ≢ 0 → (if n == 0 then none else x) ≡ x
if_nonzero n x h = ground arith

-- Division by a value other than zero does not raise.
pub div-some : (a b : Decimal) → magnitude b.coeff ≢ 0 → (q : Decimal) × (◌/ᵈ◌ a b ≡ some q)
unfolding ◌/ᵈ◌
div-some a b h = (quotient a b, if_nonzero (magnitude b.coeff) (some (quotient a b)) h)
