-- ===== src/Paper/Price.antt =====
-- packages/exchange/paper/fees.py, slippage.py and intra_candle.py, and `_compute_realized_pnl` of
-- packages/exchange/paper/adapter.py.
use scalper_v.Base.{◌||◌, Option, none, some, if◌then◌else◌}
use scalper_v.Base.Int.{pos}
use scalper_v.Domain.{Side, buy, sell}
use scalper_v.Decimal.{Decimal, int, ◌+ᵈ◌, ◌-ᵈ◌, ◌*ᵈ◌, ◌<?◌, ◌≤?◌, abs_dec}
use scalper_v.Decimal.Division.{quotient, quantize}

-- `compute_fee`
unfoldable pub compute_fee : Decimal → Decimal → Decimal → Decimal
unfolding ◌*ᵈ◌ abs_dec
compute_fee qty fill_price fee_rate = abs_dec qty *ᵈ fill_price *ᵈ fee_rate

-- The models with the coefficient that each takes from `slippage_params`.
pub data SlippageModel : Type 0 where
  fixed_pct proportional_to_qty half_spread : Decimal → SlippageModel

-- `_compute_slippage`, over the functions of slippage.py.
unfoldable pub compute_slippage : SlippageModel → Decimal → Decimal → Decimal → Decimal → Decimal
unfolding ◌*ᵈ◌ ◌-ᵈ◌ abs_dec quotient
compute_slippage (fixed_pct pct) price qty high low = price *ᵈ pct
compute_slippage (proportional_to_qty coeff) price qty high low = price *ᵈ coeff *ᵈ abs_dec qty
compute_slippage (half_spread factor) price qty high low =
    quotient (high -ᵈ low) (int (pos 2)) *ᵈ factor

-- The fill price of a market order: against the side that trades.
unfoldable pub fill_price_of : Side → Decimal → Decimal → Decimal
unfolding ◌+ᵈ◌ ◌-ᵈ◌
fill_price_of buy last slippage = last +ᵈ slippage
fill_price_of sell last slippage = last -ᵈ slippage

gross_pnl : Side → Decimal → Decimal → Decimal → Decimal
unfolding ◌-ᵈ◌ ◌*ᵈ◌
gross_pnl buy entry exit qty = (exit -ᵈ entry) *ᵈ qty
gross_pnl sell entry exit qty = (entry -ᵈ exit) *ᵈ qty

-- `_compute_realized_pnl`; `none` is the `InvalidOperation` of `quantize`.
unfoldable pub compute_realized_pnl :
    Side → Decimal → Decimal → Decimal → Decimal → Decimal → Option Decimal
unfolding gross_pnl ◌-ᵈ◌ quantize
compute_realized_pnl side entry exit qty fees_open fees_close =
    quantize (gross_pnl side entry exit qty -ᵈ fees_open -ᵈ fees_close) 4

-- `generate_intra_candle_path`; `none` is the `ValueError` on malformed prices.
unfoldable pub generate_intra_candle_path :
    Decimal → Decimal → Decimal → Decimal → Option (Decimal × Decimal × Decimal × Decimal)
unfolding ◌<?◌ ◌≤?◌
generate_intra_candle_path open' high low close =
    if high <? low
    then none
    else if (open' <? low) || (high <? open')
    then none
    else if (close <? low) || (high <? close)
    then none
    else if open' ≤? close
    then some (open', high, low, close)
    else some (open', low, high, close)
