-- ===== src/Execution/Prices.antt =====
-- services/execution/app/placement_persist.py: the prices and sizes of a placement.
use scalper_v.Base.{Option}
use scalper_v.Base.Int.{pos}
use scalper_v.Domain.{Side, buy, sell}
use scalper_v.Decimal.{Decimal, int, ◌+ᵈ◌, ◌-ᵈ◌, ◌*ᵈ◌}
use scalper_v.Decimal.Division.{quantize}

unfoldable pub compute_sl_price : Side → Decimal → Decimal → Decimal
unfolding ◌+ᵈ◌ ◌-ᵈ◌ ◌*ᵈ◌
compute_sl_price buy fill sl_pct = fill *ᵈ (int (pos 1) -ᵈ sl_pct)
compute_sl_price sell fill sl_pct = fill *ᵈ (int (pos 1) +ᵈ sl_pct)

unfoldable pub compute_tp_price : Side → Decimal → Decimal → Decimal
unfolding ◌+ᵈ◌ ◌-ᵈ◌ ◌*ᵈ◌
compute_tp_price buy fill tp_pct = fill *ᵈ (int (pos 1) +ᵈ tp_pct)
compute_tp_price sell fill tp_pct = fill *ᵈ (int (pos 1) -ᵈ tp_pct)

unfoldable pub compute_tp_size : Decimal → Decimal → Decimal
unfolding ◌*ᵈ◌
compute_tp_size qty tp_qty_pct = qty *ᵈ tp_qty_pct

-- `none` is the `InvalidOperation` of a result with too many digits.
unfoldable pub compute_notional_usd : Decimal → Decimal → Option Decimal
unfolding ◌*ᵈ◌ quantize
compute_notional_usd qty price = quantize (qty *ᵈ price) 4

abbrev pub opposite_side : Side → Side
opposite_side buy = sell
opposite_side sell = buy
