-- ===== src/Quantize.antt =====
-- packages/exchange/quantize.py: quantities and prices on the grid of the instrument.
use scalper_v.Base.{
  ℕ, ◌≡◌, subst, arith, if_cases, some-injective, Option, none, some, if◌then◌else◌,
}
use scalper_v.Base.Int.{pos}
use scalper_v.Domain.{Side, buy, sell}
use scalper_v.Decimal.{Decimal, int, ◌<?◌, ◌≤?◌, ◌*ᵈ◌}
use scalper_v.Decimal.Places.{FitsIn, *ᵈ-exp, to_integral_value-exp}
use scalper_v.Decimal.Division.{
  Rounding, round_floor, round_ceiling, ◌/ᵈ◌, ◌//ᵈ◌, to_integral_value,
}

-- The constraints of `InstrumentInfo` that are read here.
pub record InstrumentInfo : Type 0 where
  pub qty_step : Decimal
  pub min_order_qty : Decimal
  pub tick_size : Decimal

-- `below_minimum` is `QtyValidationError("min_order_qty")`, and `arithmetic` an error of `//`.
pub data Quantized : Type 0 where
  on_grid : Decimal → Quantized
  below_minimum arithmetic : Quantized

round_down : InstrumentInfo → Option Decimal → Quantized
unfolding ◌*ᵈ◌
round_down info none = arithmetic
round_down info (some steps) =
    let rounded = steps *ᵈ info.qty_step in
    if rounded <? info.min_order_qty then below_minimum else on_grid rounded

unfoldable pub quantize_qty : Decimal → InstrumentInfo → Quantized
unfolding round_down ◌//ᵈ◌ ◌<?◌
quantize_qty qty info =
    if qty <? info.min_order_qty then below_minimum else round_down info (qty //ᵈ info.qty_step)

abbrev rounding_of : Side → Rounding
rounding_of buy = round_floor
rounding_of sell = round_ceiling

to_grid : Side → Decimal → Option Decimal → Option Decimal
unfolding ◌*ᵈ◌ to_integral_value
to_grid side tick none = none
to_grid side tick (some steps) = some (to_integral_value (rounding_of side) steps *ᵈ tick)

-- `none` is the `ValueError` on a tick that is not positive.
unfoldable pub quantize_price : Decimal → Side → Decimal → Option Decimal
unfolding to_grid ◌/ᵈ◌ ◌≤?◌
quantize_price price side tick =
    if tick ≤? int (pos 0) then none else to_grid side tick (price /ᵈ tick)

to_grid-FitsIn :
    (places : ℕ) (side : Side) (tick price : Decimal) (steps : Option Decimal)
    → FitsIn places tick
    → to_grid side tick steps ≡ some price
    → FitsIn places price
unfolding to_grid
to_grid-FitsIn places side tick price none h e = cc e
to_grid-FitsIn places side tick price (some steps) h e =
    let n = to_integral_value (rounding_of side) steps in
    subst (FitsIn places) (some-injective (n *ᵈ tick) price e)
      (omega (arith, h, *ᵈ-exp n tick, to_integral_value-exp (rounding_of side) steps))

-- A price on the grid has no more decimals than the tick.
pub quantize_price-FitsIn :
    (places : ℕ) (price : Decimal) (side : Side) (tick quantized : Decimal)
    → FitsIn places tick
    → quantize_price price side tick ≡ some quantized
    → FitsIn places quantized
unfolding quantize_price
quantize_price-FitsIn places price side tick quantized h =
    if_cases (λ o. o ≡ some quantized → FitsIn places quantized) (tick ≤? int (pos 0)) none
      (to_grid side tick (price /ᵈ tick)) (λ b e. cc e)
      (λ b e. to_grid-FitsIn places side tick quantized (price /ᵈ tick) h e)
