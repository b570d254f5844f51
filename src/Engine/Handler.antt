-- ===== src/Engine/Handler.antt =====
-- `_handle` of consumer.py: the filters, the five gates in their order, and the scoring.
use scalper_v.Base.{
  ℕ, ◌-◌, Bool, false, not, ◌&&◌, ◌||◌, Option, none, some, List, [], ◌∷◌, ltb, leb, ◌==◌,
  if◌then◌else◌,
}
use scalper_v.Domain.{Side, trades, paper_trades, table_of}
use scalper_v.Risk.Trades.{TradeRow}
use scalper_v.Risk.KillSwitch.{KillSwitchTable}
use scalper_v.Risk.OppositeSide.{OppositeSideDecision, check_opposite_side}
use scalper_v.Risk.Cooldown.{check_cooldown}
use scalper_v.Risk.Caps.{check_concurrent_caps}
use scalper_v.Risk.LossLimit.{LossLimitDecision, check_daily_loss_limit}
use scalper_v.Risk.Drawdown.{DrawdownDecision, check_max_drawdown}
use scalper_v.Engine.{
  Signal, BotConfig, SignalRow, Gate, opposite_side, cooldown, concurrent_caps, loss_limit,
  drawdown, Outcome, payload_invalid, expired, outside_universe, outside_source_filter,
  close_unsupported, signal_id_unresolved, evaluator_crashed, raised, blocked, Env, Desk, side_of,
}
use scalper_v.Engine.Publish.{persist}

unfoldable pub contains : ℕ → List ℕ → Bool
contains k [] = false
contains k (j ∷ js) = (j == k) || contains k js

-- `select_signal_id_by_idempotency_key`; the table has the newest row first.
unfoldable pub select_signal_id : ℕ → ℕ → List SignalRow → Option ℕ
select_signal_id key since [] = none
select_signal_id key since (r ∷ rs) =
    if (r.idempotency_key == key) && leb since r.received_at
    then some r.id
    else select_signal_id key since rs

-- The table of trades that each gate reads.
abbrev pub table : Env → BotConfig → List TradeRow
table env bot = elim (table_of bot.mode) [ trades ↦ env.trades | paper_trades ↦ env.paper_trades ]

-- A gate that blocks counts the signal.
abbrev pub block : Gate → Desk → Desk × Outcome
block gate d = (record d { counted = gate ∷ d.counted }, blocked gate)

unfoldable pub score : Env → BotConfig → Signal → Side → ℕ → Desk → Desk × Outcome
unfolding persist
score env bot s side id d = elim (env.evaluate s) [
  | none ↦ (d, evaluator_crashed)
  | some r ↦ persist env bot s side id r d
]

-- Step 3c, and the steps after it.
unfoldable pub resolve : Env → BotConfig → Signal → Side → Desk → Desk × Outcome
unfolding score select_signal_id
resolve env bot s side d =
    elim (select_signal_id s.idempotency_key (env.now - bot.max_signal_age) env.signals) [
      | none ↦ (d, signal_id_unresolved)
      | some id ↦ score env bot s side id d
    ]

unfoldable pub after_drawdown :
    Env
    → BotConfig
    → Signal
    → Side
    → Desk
    → Option (KillSwitchTable × DrawdownDecision)
    → Desk × Outcome
unfolding resolve
after_drawdown env bot s side d none = (d, raised)
after_drawdown env bot s side d (some (latch, verdict)) =
    let d' = record d { latch = latch } in
    let further = resolve env bot s side d' in
    if verdict.blocked then block drawdown d' else further

unfoldable pub after_loss_limit :
    Env → BotConfig → Signal → Side → Desk → KillSwitchTable × LossLimitDecision → Desk × Outcome
unfolding after_drawdown check_max_drawdown
after_loss_limit env bot s side d (latch, verdict) =
    let d' = record d { latch = latch } in
    let further =
      after_drawdown env bot s side d'
        (check_max_drawdown bot.bot_id (table env bot) env.now bot.risk latch) in
    if verdict.blocked then block loss_limit d' else further

unfoldable pub after_opposite_side :
    Env → BotConfig → Signal → Side → Desk → Option OppositeSideDecision → Desk × Outcome
unfolding after_loss_limit check_cooldown check_concurrent_caps check_daily_loss_limit
after_opposite_side env bot s side d none = (d, raised)
after_opposite_side env bot s side d (some verdict) =
    let further =
      after_loss_limit env bot s side d
        (check_daily_loss_limit bot.bot_id (table env bot) env.now bot.risk d.latch) in
    if verdict.active
    then block opposite_side d
    else if (check_cooldown bot.bot_id (table env bot) env.now bot.risk).active
    then block cooldown d
    else if (check_concurrent_caps bot.bot_id (table env bot) bot.risk).blocked
    then block concurrent_caps d
    else further

-- The five gates, for a signal that opens on a side.
unfoldable pub gates : Env → BotConfig → Signal → Option Side → Desk → Desk × Outcome
unfolding after_opposite_side check_opposite_side
gates env bot s none d = (d, close_unsupported)
gates env bot s (some side) d =
    after_opposite_side env bot s side d
      (check_opposite_side bot.bot_id env.positions bot.mode s.symbol side bot.risk)

unfoldable pub outside_filter : Option (List ℕ) → ℕ → Bool
unfolding contains
outside_filter none source = false
outside_filter (some sources) source = not (contains source sources)

-- Steps 3a and 3b, on a payload that is valid.
unfoldable pub admit : Env → BotConfig → Signal → Desk → Desk × Outcome
unfolding contains outside_filter gates
admit env bot s d =
    if ltb s.expires_at env.now
    then (d, expired)
    else if not (contains s.symbol bot.symbols)
    then (d, outside_universe)
    else if outside_filter bot.source_filter s.source
    then (d, outside_source_filter)
    else gates env bot s (side_of s.action) d

-- `_handle`; `none` is a payload that does not validate.
unfoldable pub handle : Env → BotConfig → Option Signal → Desk → Desk × Outcome
unfolding admit
handle env bot none d = (d, payload_invalid)
handle env bot (some s) d = admit env bot s d

-- The signals that one bot handles, each in its environment.
unfoldable pub handle_all : BotConfig → List (Env × Option Signal) → Desk → Desk
unfolding handle
handle_all bot [] d = d
handle_all bot ((env, s) ∷ es) d = handle_all bot es (handle env bot s d).0
