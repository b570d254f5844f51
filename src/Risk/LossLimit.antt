-- ===== src/Risk/LossLimit.antt =====
-- services/strategy_engine/app/loss_limit_gate.py: the daily loss kill switch.
use scalper_v.Base.{ℕ, Bool, true, false, Option, none, some, List, if◌then◌else◌}
use scalper_v.Base.Int.{pos}
use scalper_v.Domain.{date, midnight}
use scalper_v.Decimal.{Decimal, int, fixed, ◌≤?◌, neg_dec}
use scalper_v.Risk.Trades.{RiskSection, TradeRow, sum_realized_pnl_since}
use scalper_v.Risk.KillSwitch.{
  TripReason, daily_loss_limit, KillSwitchState, KillSwitchTable, is_stale_daily_latch,
  upsert_kill_switch_trip, clear_kill_switch,
}

pub record LossLimitDecision : Type 0 where
  pub blocked : Bool
  pub reason : Option TripReason
  pub cumulative_loss_usd : Option Decimal
  pub limit_usd : Option Decimal

-- `_NOT_BLOCKED`
abbrev pub not_blocked : LossLimitDecision
not_blocked = record {
  blocked = false;
  reason = none;
  cumulative_loss_usd = none;
  limit_usd = none;
}

-- From `since = ...` on: today's sum against the limit.
unfoldable pub recompute_loss :
    ℕ → List TradeRow → ℕ → Decimal → KillSwitchTable → KillSwitchTable × LossLimitDecision
recompute_loss bot table now limit latch =
    let total = fixed (sum_realized_pnl_since bot (midnight now) table) 4 in
    if total ≤? neg_dec limit
    then (
      upsert_kill_switch_trip daily_loss_limit now (date now) total latch,
      record {
        blocked = true;
        reason = some daily_loss_limit;
        cumulative_loss_usd = some total;
        limit_usd = some limit;
      },
    )
    else (latch, not_blocked)

abbrev held : Decimal → KillSwitchState → LossLimitDecision
held limit s = record {
  blocked = true;
  reason = s.trip_reason;
  cumulative_loss_usd = s.cumulative_loss_usd;
  limit_usd = some limit;
}

from_latch : ℕ → List TradeRow → ℕ → Decimal → KillSwitchTable → KillSwitchTable × LossLimitDecision
unfolding recompute_loss
from_latch bot table now limit none = recompute_loss bot table now limit none
from_latch bot table now limit (some s) = elim s.tripped [
  | false ↦ recompute_loss bot table now limit (some s)
  | true ↦ elim (is_stale_daily_latch s now) [
    | true ↦ recompute_loss bot table now limit (clear_kill_switch now (some s))
    | false ↦ (some s, held limit s)
  ]
]

-- `check_daily_loss_limit`, with the kill switch table before and after.
unfoldable pub check_daily_loss_limit :
    ℕ → List TradeRow → ℕ → RiskSection → KillSwitchTable → KillSwitchTable × LossLimitDecision
unfolding from_latch
check_daily_loss_limit bot table now risk latch =
    if risk.daily_loss_limit_usd ≤? int (pos 0)
    then (latch, not_blocked)
    else from_latch bot table now risk.daily_loss_limit_usd latch
