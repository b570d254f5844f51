-- ===== src/Execution.antt =====
-- services/execution/app: what places, records, watches and closes the orders of the live bots. Here
-- the rows that it keeps (packages/db/queries/execution.py), its messages
-- (packages/bus/schemas/orders.py), and what an exchange adapter can answer.
pub mod Statements
pub mod Prices
pub mod Emergency
pub mod Place
pub mod Handler
pub mod Attribution
pub mod Dispatch
pub mod Watchdog
pub mod Restart
mod Halts
pub mod Endings
pub mod Streaks
mod Examples
pub mod Tracked
use scalper_v.Base.{ℕ, Bool, Option, List}
use scalper_v.Domain.{Side}
use scalper_v.Decimal.{Decimal}
use scalper_v.Lifecycle.{SlType, FsmParams}

-- `orders.status`, of the values that the service writes.
pub data OrderStatus : Type 0 where
  filled emergency_closed : OrderStatus

pub record OrderRow : Type 0 where
  pub id : ℕ
  pub bot_id : ℕ
  pub signal_id : ℕ
  pub correlation_id : ℕ
  pub exchange_order_id : ℕ
  pub symbol : ℕ
  pub side : Side
  pub qty : Decimal
  pub price : Decimal
  pub status : OrderStatus
  pub requested_at : ℕ
  pub filled_at : Option ℕ
  pub closed_at : Option ℕ

pub data CloseReason : Type 0 where
  manual by_sl by_trail by_unknown emergency reconcile_gone : CloseReason

-- The values of `trades.lifecycle_state` that are written outside the monitor.
pub data TradeLifecycleState : Type 0 where
  opened partially_closed closed reconciled : TradeLifecycleState

-- What a close writes to a trade.
pub record Closing : Type 0 where
  pub exit_price : Decimal
  pub realized_pnl : Decimal
  pub closed_at : ℕ
  pub close_reason : CloseReason
  pub close_order_id : ℕ

-- A row of `trades`; its status is 'closed' exactly if `closing` is there.
pub record TradeRow : Type 0 where
  pub id : ℕ
  pub bot_id : ℕ
  pub signal_id : ℕ
  pub open_order_id : ℕ
  pub symbol : ℕ
  pub side : Side
  pub entry_price : Decimal
  pub qty : Decimal
  pub notional_usd : Decimal
  pub opened_at : ℕ
  pub fees_paid : Option Decimal
  pub closing : Option Closing
  pub lifecycle_state : Option TradeLifecycleState
  pub meta : Option FsmParams

-- A row of `position_state`, but for the columns of the monitor, which Lifecycle has.
pub record PositionStateRow : Type 0 where
  pub bot_id : ℕ
  pub symbol : ℕ
  pub trade_id : ℕ
  pub side : Side
  pub entry_price : Decimal
  pub qty : Decimal
  pub remaining_qty : Decimal
  pub sl_price : Option Decimal
  pub tp_price : Option Decimal
  pub sl_type : Option SlType
  pub updated_at : ℕ

pub data ExecType : Type 0 where
  open_fill partial_tp_fill sl_fill trail_fill close_fill unknown_fill : ExecType

pub record ExecutionRow : Type 0 where
  pub exchange_exec_id : ℕ
  pub order_id : ℕ
  pub trade_id : Option ℕ
  pub bot_id : ℕ
  pub symbol : ℕ
  pub side : Side
  pub price : Decimal
  pub qty : Decimal
  pub fee : Decimal
  pub exec_type : ExecType
  pub executed_at : ℕ

-- `OrderEventBase`
pub record OrderEvent : Type 0 where
  pub bot_id : ℕ
  pub order_id : ℕ
  pub exchange_order_id : ℕ
  pub symbol : ℕ
  pub timestamp : ℕ

pub record OrderClosed : Type 0 where
  pub event : OrderEvent
  pub realized_pnl : Decimal
  pub close_reason : CloseReason

pub record SlMoved : Type 0 where
  pub event : OrderEvent
  pub new_sl_price : Decimal
  pub sl_type : SlType

-- The payloads of a row of `trading_events`, by its `event_type`.
pub data EventPayload : Type 0 where
  order_placed : OrderEvent → EventPayload
  order_closed : OrderClosed → EventPayload
  sl_moved : SlMoved → EventPayload
  sl_watchdog_emergency_close : OrderClosed → EventPayload

pub record TradingEvent : Type 0 where
  pub occurred_at : ℕ
  pub bot_id : ℕ
  pub payload : EventPayload

-- The tables of the database, newest rows first, with the counters of the two BIGSERIAL keys.
pub record Tables : Type 0 where
  pub orders : List OrderRow
  pub trades : List TradeRow
  pub position_state : List PositionStateRow
  pub executions : List ExecutionRow
  pub trading_events : List TradingEvent
  pub next_order : ℕ
  pub next_trade : ℕ

-- packages/exchange/errors.py; `other_error` is any other exception.
pub data ExchangeError : Type 0 where
  rate_limit_error auth_error order_rejected network_timeout unknown_state other_error :
      ExchangeError

-- How a call of the adapter ends.
pub data Reply {ℓ} (A : Type ℓ) : Type ℓ where
  answer : A → Reply A
  fails : ExchangeError → Reply A

-- The calls of the adapter that change something at the exchange.
pub data ExchangeCall : Type 0 where
  set_leverage : ℕ → ℕ → ExchangeCall
  market_order : ℕ → Side → Decimal → Bool → ExchangeCall
  stop_loss : ℕ → Decimal → ExchangeCall
  take_profit : ℕ → Decimal → Decimal → ExchangeCall

-- `TradeClosedPayload` by its trade; `shadow_start` by its trade, whether that is live, and its qty.
pub data Published : Type 0 where
  orders_event : EventPayload → Published
  orders_dlq : ℕ → Published
  trade_closed : ℕ → ℕ → Published
  shadow_start : ℕ → Bool → Decimal → Published

-- What the service leaves: the tables, and newest first its calls of the exchange, its messages and
-- the trades for which it started a monitor.
pub record Desk : Type 0 where
  pub tables : Tables
  pub calls : List ExchangeCall
  pub published : List Published
  pub monitors : List ℕ
