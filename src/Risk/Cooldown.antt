-- ===== src/Risk/Cooldown.antt =====
-- services/strategy_engine/app/cooldown_gate.py: the cooldown after a loss or a losing streak.
pub mod Window
use scalper_v.Base.{
  ℕ, zero, suc, ◌+◌, ◌*◌, ◌<◌, max, Bool, true, false, ◌&&◌, ◌||◌, not, Option, none, some, List,
  [], ◌∷◌, ltb, leb, ◌==◌, if◌then◌else◌,
}
use scalper_v.Base.Int.{ℤ, pos, ltb_ℤ}
use scalper_v.Domain.{minute}
use scalper_v.Risk.Trades.{RiskSection, TradeRow, ClosedTradeRow, select_recent_closed_trades}

pub data CooldownReason : Type 0 where
  cooldown_after_loss cooldown_after_streak cooldown_after_loss_and_streak : CooldownReason

pub record CooldownDecision : Type 0 where
  pub active : Bool
  pub reason : Option CooldownReason
  pub cooldown_until : Option ℕ
  pub streak_count : ℕ
  pub last_loss_at : Option ℕ

-- `_INACTIVE`
abbrev pub inactive : CooldownDecision
inactive = record {
  active = false;
  reason = none;
  cooldown_until = none;
  streak_count = 0;
  last_loss_at = none;
}

abbrev pub loss_enabled : RiskSection → Bool
loss_enabled risk = ltb 0 risk.cooldown_after_loss_minutes

abbrev pub streak_enabled : RiskSection → Bool
streak_enabled risk =
    ltb 0 risk.cooldown_after_streak_n_losses && ltb 0 risk.cooldown_after_streak_n_losses_minutes

-- `_compute_limit`
unfoldable pub compute_limit : RiskSection → ℕ
compute_limit risk =
    if not (loss_enabled risk) && not (streak_enabled risk)
    then 0
    else max (if loss_enabled risk then 1 else 0)
        (if streak_enabled risk then risk.cooldown_after_streak_n_losses else 0)

abbrev or_else : Option ℕ → ℕ → Option ℕ
or_else none at = some at
or_else (some old) at = some old

-- The loop of `_walk_streak`, with its two variables.
walk_from : ℕ → Option ℕ → List ClosedTradeRow → ℕ × Option ℕ
walk_from count last [] = (count, last)
walk_from count last (r ∷ rs) =
    let further = walk_from (count + 1) (or_else last r.closed_at) rs in
    if ltb_ℤ r.realized_pnl (pos 0) then further else (count, last)

-- `_walk_streak`
unfoldable pub walk_streak : List ClosedTradeRow → ℕ × Option ℕ
unfolding walk_from
walk_streak rows = walk_from 0 none rows

-- A deadline that binds: one that lies after now.
deadline : Bool → ℕ → ℕ → ℕ → Option ℕ
deadline enabled now last minutes =
    let candidate = last + minutes * minute in
    if enabled && ltb now candidate then some candidate else none

combine : Option ℕ → Option ℕ → ℕ → ℕ → CooldownDecision
combine (some l) (some s) count last = record {
  active = true;
  reason = some cooldown_after_loss_and_streak;
  cooldown_until = some (max l s);
  streak_count = count;
  last_loss_at = some last;
}
combine (some l) none count last = record {
  active = true;
  reason = some cooldown_after_loss;
  cooldown_until = some l;
  streak_count = count;
  last_loss_at = some last;
}
combine none (some s) count last = record {
  active = true;
  reason = some cooldown_after_streak;
  cooldown_until = some s;
  streak_count = count;
  last_loss_at = some last;
}
combine none none count last = record {
  active = false;
  reason = none;
  cooldown_until = none;
  streak_count = count;
  last_loss_at = some last;
}

-- `_build_decision`
unfoldable pub build_decision : ℕ → RiskSection → ℕ → Option ℕ → CooldownDecision
unfolding deadline combine
build_decision now risk count none = inactive
build_decision now risk count (some last) =
    combine (deadline (loss_enabled risk) now last risk.cooldown_after_loss_minutes)
      (deadline (streak_enabled risk && leb risk.cooldown_after_streak_n_losses count) now last
        risk.cooldown_after_streak_n_losses_minutes)
      count last

decide : ℕ → RiskSection → ℕ × Option ℕ → CooldownDecision
unfolding build_decision
decide now risk (count, last) = build_decision now risk count last

-- `check_cooldown`, over the table that the mode of the bot selects.
unfoldable pub check_cooldown : ℕ → List TradeRow → ℕ → RiskSection → CooldownDecision
unfolding compute_limit select_recent_closed_trades walk_streak decide
check_cooldown bot table now risk =
    if compute_limit risk == 0
    then inactive
    else decide now risk (walk_streak (select_recent_closed_trades bot table (compute_limit risk)))
