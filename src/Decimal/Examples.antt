-- ===== src/Decimal/Examples.antt =====
-- Runs of the decimal operations at values whose results the documentation of Python gives.
use scalper_v.Base.{◌≡◌, refl, some, true}
use scalper_v.Base.Int.{pos, negsuc}
use scalper_v.Decimal.{int, fixed, ◌+ᵈ◌, ◌=?◌}
use scalper_v.Decimal.Division.{◌/ᵈ◌, ◌//ᵈ◌, quantize, to_integral_value, round_floor}

-- 0.1 + 0.02
sum_fixed : fixed (pos 1) 1 +ᵈ fixed (pos 2) 2 ≡ fixed (pos 12) 2
unfolding ◌+ᵈ◌
sum_fixed = refl

-- 1 / 3 has 28 digits.
third : int (pos 1) /ᵈ int (pos 3) ≡ some (fixed (pos 3333333333333333333333333333) 28)
unfolding ◌/ᵈ◌
third = refl

-- 2 / 3 is rounded up.
two_thirds : int (pos 2) /ᵈ int (negsuc 2) ≡ some (fixed (negsuc 6666666666666666666666666666) 28)
unfolding ◌/ᵈ◌
two_thirds = refl

exact : (int (pos 5) =? fixed (pos 500) 2) ≡ true
unfolding ◌=?◌
exact = refl

half_up : quantize (fixed (pos 100005) 5) 4 ≡ some (fixed (pos 10000) 4)
unfolding quantize
half_up = refl

floor_negative : to_integral_value round_floor (fixed (negsuc 14) 1) ≡ int (negsuc 1)
unfolding to_integral_value
floor_negative = refl

truncates : int (negsuc 6) //ᵈ int (pos 2) ≡ some (int (negsuc 2))
unfolding ◌//ᵈ◌
truncates = refl
