-- ===== src/Risk/Verdicts.antt =====
-- What the two kill switch gates decide, against the latch and the trades.
use scalper_v.Base.{ℕ, zero, suc, ◌≡◌, ◌≢◌, ◌↔◌, ◌⊎◌, true, false, none, some, List, arith}
use scalper_v.Base.Int.{ℤ, pos, negsuc}
use scalper_v.Domain.{midnight}
use scalper_v.Decimal.{Decimal, int, fixed, ◌≤?◌, ◌-ᵈ◌, neg_dec, magnitude}
use scalper_v.Decimal.Division.{div-some}
use scalper_v.Risk.Trades.{
  RiskSection, TradeRow, sum_realized_pnl_since, select_pnl_peak_and_current,
}
use scalper_v.Risk.KillSwitch.{KillSwitchTable, clear_kill_switch}
use scalper_v.Risk.LossLimit.{check_daily_loss_limit}
use scalper_v.Risk.Drawdown.{check_max_drawdown, recompute_drawdown}
use scalper_v.Risk.Latch.{Holds, LimitEnabled}

-- Today's realized result has reached the limit.
abbrev pub Breached : ℕ → List TradeRow → ℕ → RiskSection → Type 0
Breached bot table now risk =
    (fixed (sum_realized_pnl_since bot (midnight now) table) 4 ≤? neg_dec risk.daily_loss_limit_usd)
    ≡ true

loss_blocks :
    (bot : ℕ) (table : List TradeRow) (now : ℕ) (risk : RiskSection) (latch : KillSwitchTable)
    → LimitEnabled risk
    → (check_daily_loss_limit bot table now risk latch).1.blocked ≡ true
    → Holds now latch ⊎ Breached bot table now risk
unfolding check_daily_loss_limit
loss_blocks bot table now risk none on h = ground arith
loss_blocks bot table now risk (some s) on h = ground arith

blocks_loss :
    (bot : ℕ) (table : List TradeRow) (now : ℕ) (risk : RiskSection) (latch : KillSwitchTable)
    → LimitEnabled risk
    → Holds now latch ⊎ Breached bot table now risk
    → (check_daily_loss_limit bot table now risk latch).1.blocked ≡ true
unfolding check_daily_loss_limit
blocks_loss bot table now risk none on h = ground arith
blocks_loss bot table now risk (some s) on h = ground arith

-- While it is on, the daily loss gate blocks exactly if a latch holds already or the sum of the
-- results realized since midnight has reached the limit; a stale latch blocks nothing by itself.
pub check_daily_loss_limit-blocks :
    (bot : ℕ) (table : List TradeRow) (now : ℕ) (risk : RiskSection) (latch : KillSwitchTable)
    → LimitEnabled risk
    → ((check_daily_loss_limit bot table now risk latch).1.blocked ≡ true)
      ↔ (Holds now latch ⊎ Breached bot table now risk)
check_daily_loss_limit-blocks bot table now risk latch on =
    (loss_blocks bot table now risk latch on, blocks_loss bot table now risk latch on)

positive_peak : (peak : ℤ) → (fixed peak 4 ≤? int (pos 0)) ≡ false → magnitude peak ≢ 0
unfolding ◌≤?◌ magnitude
positive_peak (pos zero) h e = cc
positive_peak (pos (suc n)) h e = absurd (omega (arith, e))
positive_peak (negsuc n) h e = absurd (omega (arith, e))

recompute_drawdown-total :
    (bot : ℕ) (table : List TradeRow) (now : ℕ) (limit : Decimal) (latch : KillSwitchTable)
    → recompute_drawdown bot table now limit latch ≢ none
unfolding recompute_drawdown
recompute_drawdown-total bot table now limit latch h =
    let (peak, current) = select_pnl_peak_and_current bot table in
    ground (arith, positive_peak peak, div-some (fixed peak 4 -ᵈ fixed current 4) (fixed peak 4))

-- The division of the drawdown gate is never by zero: the gate always gives a verdict.
pub check_max_drawdown-total :
    (bot : ℕ) (table : List TradeRow) (now : ℕ) (risk : RiskSection) (latch : KillSwitchTable)
    → check_max_drawdown bot table now risk latch ≢ none
unfolding check_max_drawdown
check_max_drawdown-total bot table now risk none h =
    ground (arith, recompute_drawdown-total bot table now risk.max_drawdown_pct none)
check_max_drawdown-total bot table now risk (some s) h = ground (
  arith,
  recompute_drawdown-total bot table now risk.max_drawdown_pct (some s),
  recompute_drawdown-total bot table now risk.max_drawdown_pct (clear_kill_switch now (some s)),
)
