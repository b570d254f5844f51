-- ===== src/Engine.antt =====
-- services/strategy_engine/app/consumer.py: the data that one bot's signal handler reads and leaves.
pub mod Publish
pub mod Handler
pub mod View
pub mod Audit
pub mod Halt
pub mod Orders
mod Examples
use scalper_v.Base.{ℕ, Bool, true, false, Option, none, some, List}
use scalper_v.Domain.{Side, buy, sell, ExchangeMode}
use scalper_v.Decimal.{Decimal}
use scalper_v.Risk.Trades.{RiskSection, TradeRow}
use scalper_v.Risk.KillSwitch.{KillSwitchTable}
use scalper_v.Risk.OppositeSide.{PositionTables}
use scalper_v.Sizing.{SizingTier, Multipliers, Caps}

pub data Action : Type 0 where
  long short close : Action

-- `SignalValidated`
pub record Signal : Type 0 where
  pub source : ℕ
  pub idempotency_key : ℕ
  pub symbol : ℕ
  pub action : Action
  pub expires_at : ℕ

pub record Execution : Type 0 where
  pub qty : Decimal
  pub leverage : ℕ
  pub sl_pct : Decimal
  pub tp_pct : Decimal
  pub tp_qty_pct : Decimal
  pub be_trigger : Decimal
  pub be_sl_level : Decimal
  pub trail_pct : Decimal

-- `SizingSection`, and `SizingSpecForWire`, which has the same fields.
pub record SizingSpec : Type 0 where
  pub by_risk : Bool
  pub tiers : List SizingTier
  pub score_multipliers : Multipliers
  pub risk_pct : Option Decimal
  pub max_notional_per_symbol : Caps

-- The parts of `BotConfig` that the handler reads, but for the shadow section, which an order request
-- carries along. `max_signal_age` is the handler's `max_signal_age_seconds`, in microseconds.
pub record BotConfig : Type 0 where
  pub bot_id : ℕ
  pub symbols : List ℕ
  pub source_filter : Option (List ℕ)
  pub mode : ExchangeMode
  pub risk : RiskSection
  pub execution : Execution
  pub sizing : Option SizingSpec
  pub max_signal_age : ℕ

pub data Decision : Type 0 where
  execute reject passthrough : Decision

-- `ScoringResult`. A score is a binary fraction, which a decimal holds.
pub record ScoringResult : Type 0 where
  pub decision : Decision
  pub total_score : Decimal
  pub threshold : Decimal
  pub reason : Option ℕ

-- A row of `signals`, newest first in the table.
pub record SignalRow : Type 0 where
  pub id : ℕ
  pub idempotency_key : ℕ
  pub received_at : ℕ

-- A row of `scoring_evaluations`.
pub record EvaluationRow : Type 0 where
  pub signal_id : ℕ
  pub evaluated_at : ℕ
  pub total_score : Decimal
  pub threshold : Decimal
  pub decision : Decision

pub record OrderRequest : Type 0 where
  pub bot_id : ℕ
  pub signal_id : ℕ
  pub symbol : ℕ
  pub side : Side
  pub execution : Execution
  pub mode : ExchangeMode
  pub score : Decimal
  pub sizing : Option SizingSpec

-- `result.reason or "score_below_threshold"`
pub data RejectReason : Type 0 where
  score_below_threshold : RejectReason
  given : ℕ → RejectReason

pub record SignalRejected : Type 0 where
  pub bot_id : ℕ
  pub idempotency_key : ℕ
  pub signal_id : ℕ
  pub symbol : ℕ
  pub action : Action
  pub reason : RejectReason
  pub total_score : Decimal
  pub threshold : Decimal
  pub rejected_at : ℕ

pub record ShadowRejectedStart : Type 0 where
  pub bot_id : ℕ
  pub execution : Execution
  pub signal_id : ℕ
  pub symbol : ℕ
  pub action : Action
  pub virtual_entry_price : Decimal
  pub rejected_at : ℕ

pub data Message : Type 0 where
  order_request : OrderRequest → Message
  signal_rejected : SignalRejected → Message
  shadow_rejected_start : ShadowRejectedStart → Message

pub data Gate : Type 0 where
  opposite_side cooldown concurrent_caps loss_limit drawdown : Gate

-- How the handler leaves a signal.
pub data Outcome : Type 0 where
  payload_invalid expired outside_universe outside_source_filter close_unsupported : Outcome
  signal_id_unresolved evaluator_crashed insert_failed dispatched raised : Outcome
  blocked : Gate → Outcome

-- What a call meets outside the handler. `evaluate` is the scoring of packages/scoring/evaluator.py,
-- where `none` is an exception; the flags say whether the insert and each publish succeed; and
-- `latest_close` is the query of the last close, where `none` is a database error.
pub record Env : Type 0 where
  pub now : ℕ
  pub trades : List TradeRow
  pub paper_trades : List TradeRow
  pub positions : PositionTables
  pub signals : List SignalRow
  pub evaluate : Signal → Option ScoringResult
  pub inserts : Bool
  pub publishes_order : Bool
  pub publishes_rejection : Bool
  pub publishes_shadow : Bool
  pub latest_close : Option (Option Decimal)

-- What the handler changes: the latch of the bot, the evaluations and messages, newest first, and the
-- counters of blocked signals, as the gates in the order of their counts.
pub record Desk : Type 0 where
  pub latch : KillSwitchTable
  pub evaluations : List EvaluationRow
  pub published : List Message
  pub counted : List Gate

-- `_ACTION_TO_SIDE`
abbrev pub side_of : Action → Option Side
side_of long = some buy
side_of short = some sell
side_of close = none
