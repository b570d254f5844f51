-- ===== src/Engine/Publish.antt =====
-- The messages of consumer.py: `_publish_order_request`, `_publish_signal_rejected`,
-- `_resolve_virtual_entry`, `_publish_shadow_rejected_start`, and the dispatch on the decision.
use scalper_v.Base.{ℕ, Bool, true, false, Option, none, some, ◌∷◌}
use scalper_v.Base.Int.{pos}
use scalper_v.Domain.{Side}
use scalper_v.Decimal.{Decimal, int}
use scalper_v.Engine.{
  Signal, BotConfig, execute, reject, passthrough, ScoringResult, EvaluationRow, OrderRequest,
  score_below_threshold, given, SignalRejected, ShadowRejectedStart, Message, order_request,
  signal_rejected, shadow_rejected_start, Outcome, insert_failed, dispatched, Env, Desk,
}

-- `bus.publish`: an error is logged and swallowed.
abbrev pub send : Bool → Message → Desk → Desk
send true m d = record d { published = m ∷ d.published }
send false m d = d

abbrev pub order_of : Env → BotConfig → Signal → Side → ℕ → ScoringResult → OrderRequest
order_of env bot s side id r = record {
  bot_id = bot.bot_id;
  signal_id = id;
  symbol = s.symbol;
  side = side;
  execution = bot.execution;
  mode = bot.mode;
  score = r.total_score;
  sizing = bot.sizing;
}

unfoldable pub publish_order_request :
    Env → BotConfig → Signal → Side → ℕ → ScoringResult → Desk → Desk
publish_order_request env bot s side id r d =
    send env.publishes_order (order_request (order_of env bot s side id r)) d

abbrev pub rejection_of : Env → BotConfig → Signal → ℕ → ScoringResult → SignalRejected
rejection_of env bot s id r = record {
  bot_id = bot.bot_id;
  idempotency_key = s.idempotency_key;
  signal_id = id;
  symbol = s.symbol;
  action = s.action;
  reason = elim r.reason [ none ↦ score_below_threshold | some n ↦ given n ];
  total_score = r.total_score;
  threshold = r.threshold;
  rejected_at = env.now;
}

unfoldable pub publish_signal_rejected : Env → BotConfig → Signal → ℕ → ScoringResult → Desk → Desk
publish_signal_rejected env bot s id r d =
    send env.publishes_rejection (signal_rejected (rejection_of env bot s id r)) d

-- `_resolve_virtual_entry`: zero without a close, and on a database error.
unfoldable pub resolve_virtual_entry : Option (Option Decimal) → Decimal
resolve_virtual_entry none = int (pos 0)
resolve_virtual_entry (some none) = int (pos 0)
resolve_virtual_entry (some (some close)) = close

unfoldable pub shadow_of : Env → BotConfig → Signal → ℕ → ShadowRejectedStart
unfolding resolve_virtual_entry
shadow_of env bot s id = record {
  bot_id = bot.bot_id;
  execution = bot.execution;
  signal_id = id;
  symbol = s.symbol;
  action = s.action;
  virtual_entry_price = resolve_virtual_entry env.latest_close;
  rejected_at = env.now;
}

unfoldable pub publish_shadow_rejected_start : Env → BotConfig → Signal → ℕ → Desk → Desk
unfolding shadow_of
publish_shadow_rejected_start env bot s id d =
    send env.publishes_shadow (shadow_rejected_start (shadow_of env bot s id)) d

-- Steps 3e to 3g.
unfoldable pub dispatch : Env → BotConfig → Signal → Side → ℕ → ScoringResult → Desk → Desk
unfolding publish_order_request publish_signal_rejected publish_shadow_rejected_start
dispatch env bot s side id r d = elim r.decision [
  | execute ↦ publish_order_request env bot s side id r d
  | passthrough ↦ publish_order_request env bot s side id r d
  | reject ↦ publish_shadow_rejected_start env bot s id (publish_signal_rejected env bot s id r d)
]

abbrev pub evaluation : Env → ℕ → ScoringResult → EvaluationRow
evaluation env id r = record {
  signal_id = id;
  evaluated_at = env.now;
  total_score = r.total_score;
  threshold = r.threshold;
  decision = r.decision;
}

-- Step 3h stands before the dispatch, and its failure ends the call.
unfoldable pub persist : Env → BotConfig → Signal → Side → ℕ → ScoringResult → Desk → Desk × Outcome
unfolding dispatch
persist env bot s side id r d = elim env.inserts [
  | false ↦ (d, insert_failed)
  | true ↦ (
    dispatch env bot s side id r (record d { evaluations = evaluation env id r ∷ d.evaluations }),
    dispatched,
  )
]
