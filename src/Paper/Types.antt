-- ===== src/Paper/Types.antt =====
-- The state of `PaperExchange` (packages/exchange/paper/adapter.py) and of the paper_* tables of its
-- bot (packages/exchange/paper/persistence.py). A dict over symbols is a function. Identifiers that
-- are drawn at random, and columns that are only written, are left out.
use scalper_v.Base.{ℕ, Bool, Option, List, ◌==◌, if◌then◌else◌}
use scalper_v.Domain.{Side}
use scalper_v.Decimal.{Decimal}
use scalper_v.Paper.Price.{SlippageModel}

pub data FillKind : Type 0 where
  sl tp : FillKind

pub data TpslMode : Type 0 where
  full_mode partial_mode : TpslMode

pub data SlType : Type 0 where
  protective be trail : SlType

-- `OhlcCandlePayload`
pub record Candle : Type 0 where
  pub symbol : ℕ
  pub bucket_start : ℕ
  pub open_price : Decimal
  pub high : Decimal
  pub low : Decimal
  pub close : Decimal
  pub is_closed : Bool

-- The keys that `_persist_open` sets.
pub record OpenPart : Type 0 where
  pub trade_id : ℕ
  pub side : Side
  pub qty : Decimal
  pub entry_price : Decimal
  pub entry_fee : Decimal
  pub fees_paid : Decimal
  pub realized_pnl : Option Decimal
  pub tp_hit : Bool

-- A value of `_active_positions`. `set_trading_stop` may make one before any position is open.
pub record Entry : Type 0 where
  pub opened : Option OpenPart
  pub sl_price : Option Decimal
  pub tp_price : Option Decimal
  pub tp_size : Option Decimal
  pub tpsl_mode : TpslMode
  pub sl_type : Option SlType

-- `PendingSLTPFill`
pub record Fill : Type 0 where
  pub symbol : ℕ
  pub side : Side
  pub qty : Decimal
  pub trigger_price : Decimal
  pub triggered_at : ℕ
  pub kind : FillKind
  pub tpsl_mode : TpslMode

pub data OrderType : Type 0 where
  market : OrderType
  synthetic : FillKind → OrderType

pub data OrderStatus : Type 0 where
  filled cancelled : OrderStatus

pub record OrderRow : Type 0 where
  pub id : ℕ
  pub symbol : ℕ
  pub side : Side
  pub order_type : OrderType
  pub qty : Decimal
  pub price : Decimal
  pub status : OrderStatus
  pub requested_at : ℕ
  pub is_idempotent : Bool

pub data CloseReason : Type 0 where
  manual : CloseReason
  by_fill : FillKind → CloseReason

-- What a close writes to a trade.
pub record Closing : Type 0 where
  pub exit_price : Decimal
  pub closed_at : ℕ
  pub close_reason : CloseReason
  pub close_order_id : ℕ

pub record TradeRow : Type 0 where
  pub id : ℕ
  pub open_order_id : ℕ
  pub symbol : ℕ
  pub side : Side
  pub entry_price : Decimal
  pub qty : Decimal
  pub notional_usd : Decimal
  pub fees_paid : Decimal
  pub realized_pnl : Option Decimal
  pub opened_at : ℕ
  pub closing : Option Closing

pub data ExecType : Type 0 where
  open_exec close_exec : ExecType
  fill_exec : FillKind → ExecType

pub record ExecutionRow : Type 0 where
  pub order_id : ℕ
  pub trade_id : ℕ
  pub symbol : ℕ
  pub side : Side
  pub price : Decimal
  pub qty : Decimal
  pub fee : Decimal
  pub exec_type : ExecType
  pub executed_at : ℕ

pub record PositionRow : Type 0 where
  pub symbol : ℕ
  pub trade_id : ℕ
  pub side : Side
  pub entry_price : Decimal
  pub qty : Decimal
  pub remaining_qty : Decimal
  pub sl_price : Option Decimal
  pub tp_price : Option Decimal
  pub tp_hit : Bool
  pub updated_at : ℕ

pub record Tables : Type 0 where
  pub orders : List OrderRow
  pub trades : List TradeRow
  pub executions : List ExecutionRow
  pub positions : List PositionRow
  pub next_order : ℕ
  pub next_trade : ℕ

pub record ExecutionEvent : Type 0 where
  pub symbol : ℕ
  pub side : Side
  pub price : Decimal
  pub qty : Decimal
  pub fee : Decimal
  pub executed_at : ℕ

pub record PositionEvent : Type 0 where
  pub symbol : ℕ
  pub side : Option Side
  pub size : Decimal
  pub entry_price : Option Decimal
  pub occurred_at : ℕ

pub record TerminalEvent : Type 0 where
  pub symbol : ℕ
  pub exec_type : FillKind
  pub sl_type_at_close : SlType
  pub tpsl_mode_at_close : TpslMode
  pub realized_pnl : Decimal

-- What a caller can see of the exchange's doings, in order.
pub data Emission : Type 0 where
  executed : ExecutionEvent → Emission
  positioned : PositionEvent → Emission
  terminated : TerminalEvent → Emission
  trade_closed : ℕ → Emission

pub record Exchange : Type 0 where
  pub seed_balance : Decimal
  pub slippage_model : SlippageModel
  pub fee_rate : Decimal
  pub has_callback : Bool
  pub emit_parent_lifecycle : Bool
  pub last_price : ℕ → Option Decimal
  pub last_candle : ℕ → Option Candle
  pub active : ℕ → Option Entry
  pub pending : List Fill
  pub tables : Tables
  pub emitted : List Emission

pub data Error : Type 0 where
  position_already_open no_position_to_close no_observed_price partial_tp_without_size : Error
  malformed_candle invalid_operation missing_key trail_not_settable : Error

pub data Result {ℓ} (A : Type ℓ) : Type ℓ where
  ok : A → Result A
  err : Error → Result A

-- `d[k] = v`, and `del d[k]` with `none`.
abbrev pub put {ℓ} : {V : Type ℓ} → ℕ → Option V → (ℕ → Option V) → ℕ → Option V
put k v d j = if j == k then v else d j
