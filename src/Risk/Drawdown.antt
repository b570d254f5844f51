-- ===== src/Risk/Drawdown.antt =====
-- services/strategy_engine/app/drawdown_gate.py: the maximum drawdown hard stop.
use scalper_v.Base.{ℕ, Bool, true, false, Option, none, some, List, if◌then◌else◌}
use scalper_v.Base.Int.{pos}
use scalper_v.Domain.{date}
use scalper_v.Decimal.{Decimal, int, fixed, ◌≤?◌, ◌-ᵈ◌}
use scalper_v.Decimal.Division.{◌/ᵈ◌}
use scalper_v.Risk.Trades.{RiskSection, TradeRow, select_pnl_peak_and_current}
use scalper_v.Risk.KillSwitch.{
  TripReason, max_drawdown, KillSwitchState, KillSwitchTable, is_stale_daily_latch,
  upsert_kill_switch_trip, clear_kill_switch,
}

pub record DrawdownDecision : Type 0 where
  pub blocked : Bool
  pub reason : Option TripReason
  pub drawdown_pct : Option Decimal
  pub limit_pct : Option Decimal

-- `_NOT_BLOCKED`
abbrev pub not_blocked : DrawdownDecision
not_blocked = record { blocked = false; reason = none; drawdown_pct = none; limit_pct = none }

-- `none` is `DivisionByZero`, which escapes the gate.
abbrev pub Result : Type 0
Result = Option (KillSwitchTable × DrawdownDecision)

judge_drawdown : ℕ → Decimal → Decimal → KillSwitchTable → Option Decimal → Result
judge_drawdown now limit current latch none = none
judge_drawdown now limit current latch (some drawdown) =
    if limit ≤? drawdown
    then some (
      upsert_kill_switch_trip max_drawdown now (date now) current latch,
      record {
        blocked = true;
        reason = some max_drawdown;
        drawdown_pct = some drawdown;
        limit_pct = some limit;
      },
    )
    else some (latch, not_blocked)

-- The guard stands before the division: nothing can be given back of a profit never earned.
unfoldable pub recompute_drawdown : ℕ → List TradeRow → ℕ → Decimal → KillSwitchTable → Result
unfolding judge_drawdown
recompute_drawdown bot table now limit latch =
    let (peak, current) = select_pnl_peak_and_current bot table in
    if fixed peak 4 ≤? int (pos 0)
    then some (latch, not_blocked)
    else judge_drawdown now limit (fixed current 4) latch
        ((fixed peak 4 -ᵈ fixed current 4) /ᵈ fixed peak 4)

abbrev pub held : Decimal → KillSwitchState → DrawdownDecision
held limit s = record {
  blocked = true;
  reason = s.trip_reason;
  drawdown_pct = none;
  limit_pct = some limit;
}

from_latch : ℕ → List TradeRow → ℕ → Decimal → KillSwitchTable → Result
unfolding recompute_drawdown
from_latch bot table now limit none = recompute_drawdown bot table now limit none
from_latch bot table now limit (some s) = elim s.tripped [
  | false ↦ recompute_drawdown bot table now limit (some s)
  | true ↦ elim (is_stale_daily_latch s now) [
    | true ↦ recompute_drawdown bot table now limit (clear_kill_switch now (some s))
    | false ↦ some (some s, held limit s)
  ]
]

-- `check_max_drawdown`, with the kill switch table before and after.
unfoldable pub check_max_drawdown : ℕ → List TradeRow → ℕ → RiskSection → KillSwitchTable → Result
unfolding from_latch
check_max_drawdown bot table now risk latch =
    if risk.max_drawdown_pct ≤? int (pos 0)
    then some (latch, not_blocked)
    else from_latch bot table now risk.max_drawdown_pct latch
