-- ===== src/Decimal/Columns.antt =====
-- PostgreSQL's `numeric`, as the queries of packages/db and of the paper exchange use it: sums are exact, and a value is
-- rounded half away from zero to the scale of the column that it is written to.
use scalper_v.Base.{Option, none, some, ℕ, ◌+◌, ◌-◌, ◌*◌, ◌/◌, ◌^◌, leb, if◌then◌else◌}
use scalper_v.Base.Int.{scale, ◌+ℤ◌}
use scalper_v.Decimal.{Decimal, bias, aligned, copy_negate, magnitude, is_negative, signed}

unfoldable pub half_away : ℕ → ℕ → ℕ
half_away n k = (n + 10 ^ k / 2) / 10 ^ k

-- A value in a column of `places` decimals.
unfoldable pub column : ℕ → Decimal → Decimal
unfolding half_away magnitude is_negative signed
column places a =
    let e = bias - places in
    let n = magnitude a.coeff * 10 ^ (a.exp - e) in
    record { coeff = signed (is_negative a.coeff) (half_away n (e - a.exp)); exp = e }

unfoldable pub numeric_add : Decimal → Decimal → Decimal
unfolding ◌+ℤ◌ scale
numeric_add a b = record {
  coeff = aligned a b +ℤ aligned b a;
  exp = if leb a.exp b.exp then a.exp else b.exp;
}

unfoldable pub numeric_sub : Decimal → Decimal → Decimal
unfolding numeric_add
numeric_sub a b = numeric_add a (copy_negate b)

-- NUMERIC(30, 12), NUMERIC(20, 4) and NUMERIC(20, 8)
abbrev pub quantity_column : Decimal → Decimal
quantity_column = column 12

abbrev pub money_column : Decimal → Decimal
money_column = column 4

abbrev pub fee_column : Decimal → Decimal
fee_column = column 8

-- A column that may be NULL.
abbrev pub quantity_or_null : Option Decimal → Option Decimal
quantity_or_null none = none
quantity_or_null (some a) = some (quantity_column a)

abbrev pub money_or_null : Option Decimal → Option Decimal
money_or_null none = none
money_or_null (some a) = some (money_column a)
