-- ===== src/Execution/Place.antt =====
-- services/execution/app/placement.py: what the handler of a bot's order requests settles before it
-- trades, and its polls of the fill price. Waits, logs and counters are left out.
use scalper_v.Base.{ℕ, zero, suc, Bool, true, false, Option, none, some, if◌then◌else◌}
use scalper_v.Decimal.{Decimal}
use scalper_v.Engine.{OrderRequest, SizingSpec}
use scalper_v.Sizing.{
  Sized, skipped, value_error, division_by_zero, sized, compute_qty_from_sizing,
  compute_qty_from_risk,
}
use scalper_v.Quantize.{InstrumentInfo, Quantized, on_grid, below_minimum, arithmetic, quantize_qty}
use scalper_v.Execution.{
  ExchangeError, rate_limit_error, auth_error, order_rejected, network_timeout, unknown_state,
  other_error, Reply, answer, fails,
}
use scalper_v.Execution.Prices.{compute_tp_size}
use scalper_v.Execution.Emergency.{CloseEnv}

-- A request in its envelope. The shadow section is the number of its variants.
pub record Envelope : Type 0 where
  pub request : OrderRequest
  pub shadow_variants : ℕ
  pub correlation_id : ℕ
  pub published_at : ℕ

-- `OrderPlaceResult`
pub record OrderPlaceResult : Type 0 where
  pub exchange_order_id : ℕ
  pub placed_at : ℕ
  pub paper_trade_id : Option ℕ

-- What a call meets outside, in the order in which it is met: the replies of the adapter, the fill
-- price at each poll, and whether the transaction commits and each publish succeeds.
pub record PlaceEnv : Type 0 where
  pub total_equity : Reply Decimal
  pub mark_price : Reply Decimal
  pub instrument : Reply InstrumentInfo
  pub set_leverage : Reply (Unit {0})
  pub placed : Reply OrderPlaceResult
  pub fill_price : ℕ → Reply (Option Decimal)
  pub publishes_dlq : Bool
  pub sets_sl : Reply (Unit {0})
  pub sets_tp : Reply (Unit {0})
  pub closes : CloseEnv
  pub sl_set_at : ℕ
  pub commits : Bool
  pub publishes_placed : Bool
  pub publishes_moved : Bool
  pub publishes_shadow : Bool

-- How the handler leaves a request; `crashed` is an exception that it does not catch, and
-- `fill_unresolved` its own `FillPriceUnresolvedError`.
pub data Outcome : Type 0 where
  sizing_fetch_failed sizing_compute_failed sub_lowest_tier qty_invalid instrument_failed : Outcome
  tp_unsatisfiable leverage_failed place_failed fill_unresolved paper_placed : Outcome
  emergency_closed persist_failed placed crashed : Outcome

-- `except (AuthError, NetworkTimeout, RateLimitError)`, and with `OrderRejected`, and with
-- `UnknownState` too.
abbrev pub on_transient : Outcome → ExchangeError → Outcome
on_transient o auth_error = o
on_transient o network_timeout = o
on_transient o rate_limit_error = o
on_transient o order_rejected = crashed
on_transient o unknown_state = crashed
on_transient o other_error = crashed

abbrev pub on_leverage : ExchangeError → Outcome
on_leverage order_rejected = leverage_failed
on_leverage e = on_transient leverage_failed e

abbrev pub on_place : ExchangeError → Outcome
on_place order_rejected = place_failed
on_place unknown_state = place_failed
on_place e = on_transient place_failed e

-- The part before the fork of paper and live: what goes on, or how the handler has ended.
pub data Stage {ℓ} (A : Type ℓ) : Type ℓ where
  further : A → Stage A
  done : Outcome → Stage A

infixl 5 ◌>>=◌
abbrev pub ◌>>=◌ {ℓ κ} : {A : Type ℓ} {B : Type κ} → Stage A → (A → Stage B) → Stage B
further a >>= f = f a
done o >>= f = done o

abbrev pub of_sized : Sized → Stage Decimal
of_sized (sized q) = further q
of_sized skipped = done sub_lowest_tier
of_sized value_error = done sizing_compute_failed
of_sized division_by_zero = done crashed

unfoldable pub of_risk :
    OrderRequest → SizingSpec → Decimal → Decimal → Option Decimal → Stage Decimal
unfolding compute_qty_from_risk
of_risk r s equity mark none = done sizing_compute_failed
of_risk r s equity mark (some risk_pct) = of_sized (
    compute_qty_from_risk equity mark r.execution.sl_pct risk_pct s.max_notional_per_symbol
      r.symbol)

unfoldable pub of_tiers : OrderRequest → SizingSpec → Decimal → Decimal → Stage Decimal
unfolding compute_qty_from_sizing
of_tiers r s equity mark = of_sized (
    compute_qty_from_sizing equity mark s.tiers (some r.score) s.score_multipliers
      s.max_notional_per_symbol r.symbol)

abbrev pub fetched {ℓ} : {A : Type ℓ} → Outcome → Reply A → Stage A
fetched o (answer a) = further a
fetched o (fails e) = done (on_transient o e)

unfoldable pub working_qty : PlaceEnv → OrderRequest → Option SizingSpec → Stage Decimal
unfolding of_risk of_tiers
working_qty env r none = further r.execution.qty
working_qty env r (some s) = do
  equity ← fetched sizing_fetch_failed env.total_equity
  mark ← fetched sizing_fetch_failed env.mark_price
  if s.by_risk then of_risk r s equity mark s.risk_pct else of_tiers r s equity mark

abbrev pub validated : Outcome → Quantized → Stage Decimal
validated o (on_grid q) = further q
validated o below_minimum = done o
validated o arithmetic = done crashed

-- What the checks before the trade settle.
pub record Checked : Type 0 where
  pub info : InstrumentInfo
  pub qty : Decimal
  pub tp_size : Decimal

-- The quantities on the instrument's grid.
unfoldable pub validated_on : OrderRequest → Decimal → InstrumentInfo → Stage Checked
unfolding quantize_qty compute_tp_size
validated_on r working info = do
  qty ← validated qty_invalid (quantize_qty working info)
  tp_size ←
      validated tp_unsatisfiable (quantize_qty (compute_tp_size qty r.execution.tp_qty_pct) info)
  further (record { info = info; qty = qty; tp_size = tp_size })

unfoldable pub preflight : PlaceEnv → OrderRequest → Stage Checked
unfolding working_qty validated_on
preflight env r = do
  working ← working_qty env r r.sizing
  info ← fetched instrument_failed env.instrument
  validated_on r working info

-- The polls of the fill price: the first price, `none` after as many polls as are left, or an
-- exception that is not a transient error of the adapter.
pub data Polled : Type 0 where
  resolved : Decimal → Polled
  unresolved broke : Polled

abbrev pub is_transient : ExchangeError → Bool
is_transient auth_error = true
is_transient network_timeout = true
is_transient rate_limit_error = true
is_transient order_rejected = false
is_transient unknown_state = false
is_transient other_error = false

unfoldable pub poll_fill_price : (ℕ → Reply (Option Decimal)) → ℕ → ℕ → Polled
poll_fill_price reply zero attempt = unresolved
poll_fill_price reply (suc left) attempt =
    let later = poll_fill_price reply left (suc attempt) in
    elim (reply attempt) [
      | answer seen ↦ elim seen [ some price ↦ resolved price | none ↦ later ]
      | fails e ↦ if is_transient e then later else broke
    ]
