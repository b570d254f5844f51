-- ===== src/Risk/Examples.antt =====
-- The gates at concrete traders and trades.
use scalper_v.Base.{
  ℕ, ◌+◌, ◌≤◌, ◌<◌, ◌≡◌, ◌≢◌, ◌↔◌, ◌⊎◌, refl, true, false, none, some, List, [], ◌∷◌,
}
use scalper_v.Base.Int.{pos, negsuc}
use mathlib.Core.List.Memᴰ.{head, tail}
use scalper_v.Domain.{buy, sell, live}
use scalper_v.Decimal.{int, fixed, ◌≤?◌, neg_dec}
use scalper_v.Risk.Trades.{
  RiskSection, TradeRow, opened, closed, closed_trades, count_open_trades, sum_realized_pnl_since,
  select_pnl_peak_and_current,
}
use scalper_v.Risk.KillSwitch.{KillSwitchState, max_drawdown}
use scalper_v.Risk.LossLimit.{check_daily_loss_limit}
use scalper_v.Risk.Drawdown.{check_max_drawdown}
use scalper_v.Risk.Cooldown.{check_cooldown, build_decision}
use scalper_v.Risk.Cooldown.Window.{
  streak, fresh_loss, Binds, SameVerdict, check_cooldown-window, check_cooldown-active,
}
use scalper_v.Risk.Caps.{check_concurrent_caps, check_concurrent_caps-passes}
use scalper_v.Risk.OppositeSide.{
  PositionRow, PositionTables, OppositeSideDecision, check_opposite_side, IsKeyed, Found,
  check_opposite_side-blocks,
}
use scalper_v.Risk.Latch.{
  Event, startup, loss_gate, drawdown_gate, run, run-hard_stop, loss_gate-sticky, Holds,
}
use scalper_v.Risk.Verdicts.{Breached, check_daily_loss_limit-blocks, check_max_drawdown-total}
use scalper_v.Risk.PeakQuery.{IsPeakAndCurrent, select_pnl_peak_and_current-IsPeakAndCurrent}

abbrev guarded : RiskSection
guarded = record {
  cooldown_after_loss_minutes = 10;
  cooldown_after_streak_n_losses = 2;
  cooldown_after_streak_n_losses_minutes = 60;
  max_open_trades_per_bot = 2;
  max_open_trades_global = 5;
  daily_loss_limit_usd = int (pos 50);
  max_drawdown_pct = fixed (pos 2) 1;
  block_opposite_side = true;
}

-- Two losses of 30 each on day 10, and an open trade.
abbrev book : List TradeRow
book =
    record {
      id = 1;
      bot_id = 7;
      status = closed;
      realized_pnl = some (negsuc 299_999);
      closed_at = 864_000_000_000;
    }
    ∷ record {
      id = 2;
      bot_id = 7;
      status = closed;
      realized_pnl = some (negsuc 299_999);
      closed_at = 864_060_000_000;
    }
    ∷ record { id = 3; bot_id = 7; status = opened; realized_pnl = none; closed_at = 0 }
    ∷ []

abbrev noon : ℕ
noon = 864_120_000_000

abbrev stopped : KillSwitchState
stopped = record {
  tripped = true;
  trip_reason = some max_drawdown;
  tripped_at = some 5;
  daily_anchor_date = some 0;
  cumulative_loss_usd = some (int (negsuc 99));
  updated_at = 5;
}

abbrev later_events : List Event
later_events =
    startup true true noon ∷ loss_gate 7 book noon guarded ∷ drawdown_gate 7 book noon guarded ∷ []

run-hard_stop_example : run later_events (some stopped) ≡ some stopped
run-hard_stop_example = run-hard_stop later_events stopped refl refl

blocked_by_loss : (check_daily_loss_limit 7 book noon guarded none).1.blocked ≡ true
unfolding check_daily_loss_limit ◌≤?◌ sum_realized_pnl_since neg_dec
blocked_by_loss = refl

limited : (guarded.daily_loss_limit_usd ≤? int (pos 0)) ≡ false
unfolding ◌≤?◌
limited = refl

loss_gate-sticky_example :
    (check_daily_loss_limit 7 []
      (noon + 1)
      guarded
      (run later_events (check_daily_loss_limit 7 book noon guarded none).0)).1.blocked
    ≡ true
loss_gate-sticky_example =
    loss_gate-sticky 7 book [] noon (noon + 1) guarded guarded none later_events blocked_by_loss
      (refl, (refl, (refl, tt))) refl limited

check_daily_loss_limit-blocks_example :
    ((check_daily_loss_limit 7 book noon guarded none).1.blocked ≡ true)
    ↔ (Holds noon none ⊎ Breached 7 book noon guarded)
check_daily_loss_limit-blocks_example =
    check_daily_loss_limit-blocks 7 book noon guarded none limited

check_max_drawdown-total_example : check_max_drawdown 7 book noon guarded none ≢ none
check_max_drawdown-total_example = check_max_drawdown-total 7 book noon guarded none

check_cooldown-window_example : SameVerdict (check_cooldown 7 book noon guarded) (
    build_decision noon guarded (streak (closed_trades 7 book)) (fresh_loss (closed_trades 7 book)))
check_cooldown-window_example = check_cooldown-window 7 book noon guarded

check_cooldown-active_example : ((check_cooldown 7 book noon guarded).active ≡ true) ↔ (
    (at : ℕ) × (fresh_loss (closed_trades 7 book) ≡ some at)
    × Binds noon guarded (streak (closed_trades 7 book)) at)
check_cooldown-active_example = check_cooldown-active 7 book noon guarded

check_concurrent_caps-passes_example : ((check_concurrent_caps 7 book guarded).blocked ≡ false) ↔ (
    (0 < 2 → count_open_trades (some 7) book + 1 ≤ 2)
    × (0 < 5 → count_open_trades none book + 1 ≤ 5))
check_concurrent_caps-passes_example = check_concurrent_caps-passes 7 book guarded

abbrev long_held : List PositionRow
long_held = record { bot_id = 7; symbol = 3; side = buy } ∷ []

abbrev both_tables : PositionTables
both_tables = record { position_state = some long_held; paper_position_state = none }

long_held-IsKeyed : IsKeyed long_held
long_held-IsKeyed r q m n k = elim m [
  | head e ↦ elim n [ head f ↦ cc (e, f) | tail n' ↦ elim n' [ ] ]
  | tail m' ↦ elim m' [ ]
]

check_opposite_side-blocks_example :
    (d : OppositeSideDecision) × (check_opposite_side 7 both_tables live 3 sell guarded ≡ some d)
    × ((d.active ≡ true) ↔ ((guarded.block_opposite_side ≡ true) × Found 7 3 long_held buy))
check_opposite_side-blocks_example =
    check_opposite_side-blocks 7 both_tables live 3 sell guarded long_held refl long_held-IsKeyed

select_pnl_peak_and_current-IsPeakAndCurrent_example :
    IsPeakAndCurrent 7 book
      (select_pnl_peak_and_current 7 book).0
      (select_pnl_peak_and_current 7 book).1
select_pnl_peak_and_current-IsPeakAndCurrent_example =
    select_pnl_peak_and_current-IsPeakAndCurrent 7 book

-- Tests: two more gates at the book above.
in_cooldown : (check_cooldown 7 book noon guarded).active ≡ true
unfolding check_cooldown
in_cooldown = refl

passes_caps : (check_concurrent_caps 7 book guarded).blocked ≡ false
unfolding check_concurrent_caps count_open_trades
passes_caps = refl
