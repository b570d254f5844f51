-- ===== src/Engine/Examples.antt =====
-- The signal handler at a concrete bot.
use scalper_v.Base.{◌≡◌, refl, true, false, none, some, [], ◌∷◌}
use scalper_v.Base.Int.{pos, negsuc}
use scalper_v.Domain.{Side, buy, live, paper}
use scalper_v.Decimal.{int, fixed, ◌≤?◌, neg_dec}
use scalper_v.Risk.Trades.{
  RiskSection, count_open_trades, sum_realized_pnl_since, select_pnl_peak_and_current,
}
use scalper_v.Risk.KillSwitch.{KillSwitchState, max_drawdown}
use scalper_v.Risk.OppositeSide.{migrated, select_open_position_side}
use scalper_v.Engine.{
  Signal, long, Execution, BotConfig, execute, ScoringResult, Env, Desk, dispatched, raised,
}
use scalper_v.Engine.Handler.{contains, outside_filter, handle, handle_all}
use scalper_v.Engine.Audit.{IsAudited, handle_all-IsAudited}
use scalper_v.Engine.Halt.{IsStopped, Behind, handle_all-Behind}
use scalper_v.Engine.Orders.{IsSafe, handle-IsSafe, handle-paper_raises}

abbrev knobs : RiskSection
knobs = record {
  cooldown_after_loss_minutes = 10;
  cooldown_after_streak_n_losses = 0;
  cooldown_after_streak_n_losses_minutes = 0;
  max_open_trades_per_bot = 2;
  max_open_trades_global = 0;
  daily_loss_limit_usd = int (pos 50);
  max_drawdown_pct = fixed (pos 2) 1;
  block_opposite_side = true;
}

abbrev execution : Execution
execution = record {
  qty = fixed (pos 1) 2;
  leverage = 5;
  sl_pct = fixed (pos 1) 2;
  tp_pct = fixed (pos 2) 2;
  tp_qty_pct = fixed (pos 5) 1;
  be_trigger = fixed (pos 1) 2;
  be_sl_level = fixed (pos 1) 3;
  trail_pct = fixed (pos 5) 3;
}

abbrev bot : BotConfig
bot = record {
  bot_id = 7;
  symbols = 3 ∷ 4 ∷ [];
  source_filter = none;
  mode = live;
  risk = knobs;
  execution = execution;
  sizing = none;
  max_signal_age = 600;
}

abbrev signal : Signal
signal = record { source = 1; idempotency_key = 11; symbol = 4; action = long; expires_at = 2000 }

abbrev strong : ScoringResult
strong = record {
  decision = execute;
  total_score = int (pos 7);
  threshold = int (pos 5);
  reason = none;
}

abbrev world : Env
world = record {
  now = 1000;
  trades = [];
  paper_trades = [];
  positions = migrated [];
  signals = record { id = 42; idempotency_key = 11; received_at = 900 } ∷ [];
  evaluate = λ s. some strong;
  inserts = true;
  publishes_order = true;
  publishes_rejection = true;
  publishes_shadow = true;
  latest_close = none;
}

abbrev desk : Desk
desk = record { latch = none; evaluations = []; published = []; counted = [] }

acted : (handle world bot (some signal) desk).1 ≡ dispatched
unfolding handle select_open_position_side count_open_trades ◌≤?◌ sum_realized_pnl_since neg_dec
    select_pnl_peak_and_current
acted = refl

handle-IsSafe_example : (side : Side) × (some buy ≡ some side) × IsSafe world bot signal desk side
handle-IsSafe_example = handle-IsSafe world bot signal desk acted

handle_all-IsAudited_example :
    IsAudited (handle_all bot ((world, some signal) ∷ (world, none) ∷ []) desk)
handle_all-IsAudited_example =
    handle_all-IsAudited bot ((world, some signal) ∷ (world, none) ∷ []) desk tt

abbrev hard_stop : KillSwitchState
hard_stop = record {
  tripped = true;
  trip_reason = some max_drawdown;
  tripped_at = some 5;
  daily_anchor_date = some 0;
  cumulative_loss_usd = some (int (negsuc 99));
  updated_at = 5;
}

abbrev halted : Desk
halted = record desk { latch = some hard_stop }

bot-IsStopped : IsStopped bot hard_stop
unfolding ◌≤?◌
bot-IsStopped = record { tripped = refl; reason = refl; enabled = refl }

handle_all-Behind_example :
    Behind hard_stop halted (handle_all bot ((world, some signal) ∷ []) halted)
handle_all-Behind_example =
    handle_all-Behind bot ((world, some signal) ∷ []) halted hard_stop bot-IsStopped refl

abbrev paper_bot : BotConfig
paper_bot = record bot { mode = paper }

admitted : (contains 4 (3 ∷ 4 ∷ []) ≡ true) × (outside_filter none 1 ≡ false)
unfolding contains outside_filter
admitted = (refl, refl)

handle-paper_raises_example : handle world paper_bot (some signal) desk ≡ (desk, raised)
handle-paper_raises_example =
    handle-paper_raises world paper_bot signal desk buy [] refl refl refl refl admitted.0 admitted.1
      refl
