-- ===== src/Lifecycle.antt =====
-- services/execution/app/lifecycle.py: the monitor of one open trade, with the statements of
-- packages/db/queries/execution.py that it runs on the trade's row of `position_state`.
pub mod Moves
pub mod Tick
pub mod Extremes
pub mod InStep
pub mod Detects
mod Examples
use scalper_v.Base.{ℕ, ◌+◌, Bool, true, false, Option, none, some, List, [], ◌∷◌, ◌++◌}
use scalper_v.Domain.{Side}
use scalper_v.Decimal.{Decimal}

pub data SlType : Type 0 where
  protective be trail : SlType

-- The states of `TradeLifecycleState` that the monitor writes; `other_state` is any other.
pub data LifecycleState : Type 0 where
  breakeven_set trailing_active other_state : LifecycleState

-- The columns of `position_state` that the monitor reads or writes.
pub record PositionState : Type 0 where
  pub best_price : Option Decimal
  pub mfe_price : Option Decimal
  pub mae_price : Option Decimal
  pub running_pnl : Decimal
  pub sl_price : Option Decimal
  pub sl_type : Option SlType
  pub updated_at : ℕ

-- `select_trade_fsm_params`
pub record FsmParams : Type 0 where
  pub be_trigger : Decimal
  pub be_sl_level : Decimal
  pub trail_pct : Decimal

-- The position of the symbol at the exchange.
pub record Position : Type 0 where
  pub size : Decimal
  pub sl_price : Option Decimal

-- `sl_overwrite_detected`
pub record Overwrite : Type 0 where
  pub sl_type : Option SlType
  pub expected_sl_price : Decimal
  pub observed_sl_price : Decimal
  pub occurred_at : ℕ

pub record Monitored : Type 0 where
  pub row : Option PositionState
  pub params : Option FsmParams
  pub state : LifecycleState
  pub exchange : Option Position
  pub events : List Overwrite
  pub stale_count : ℕ

-- What `run_position_monitor_for_trade` is started with.
pub record Trade : Type 0 where
  pub side : Side
  pub entry_price : Decimal
  pub qty : Decimal

pub data PriceRead : Type 0 where
  missing undecodable : PriceRead
  price : Decimal → PriceRead

-- How `set_trading_stop` ends: `refused` raises and leaves the stop, `lost` raises after the exchange
-- has set it, as a timeout may.
pub data StopOutcome : Type 0 where
  applied refused lost : StopOutcome

-- What one tick meets outside the process. `reads_position` says whether `get_positions` succeeds.
pub record TickInput : Type 0 where
  pub latest : PriceRead
  pub reads_position : Bool
  pub tick_size : Decimal
  pub stop : StopOutcome
  pub now : ℕ

-- How a tick ends: the loop goes on, the monitor returns, or an exception leaves it.
pub data TickEnd : Type 0 where
  goes_on closed raised : TickEnd
