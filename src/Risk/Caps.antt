-- ===== src/Risk/Caps.antt =====
-- services/strategy_engine/app/concurrent_caps_gate.py: the caps on trades that are open at once.
use scalper_v.Base.{
  ℕ, ◌+◌, ◌≤◌, ◌<◌, ◌≡◌, ◌↔◌, Bool, true, false, ◌&&◌, Option, none, some, List, arith, ltb, leb,
  if◌then◌else◌,
}
use scalper_v.Risk.Trades.{RiskSection, TradeRow, count_open_trades}

pub data CapsReason : Type 0 where
  max_open_trades_per_bot max_open_trades_global : CapsReason

pub record CapsDecision : Type 0 where
  pub blocked : Bool
  pub reason : Option CapsReason
  pub current_count : Option ℕ
  pub cap_limit : Option ℕ

-- `_NOT_BLOCKED`
abbrev pub not_blocked : CapsDecision
not_blocked = record { blocked = false; reason = none; current_count = none; cap_limit = none }

abbrev over_cap : CapsReason → ℕ → ℕ → CapsDecision
over_cap reason count cap = record {
  blocked = true;
  reason = some reason;
  current_count = some count;
  cap_limit = some cap;
}

-- Each half reads the table only if its cap is set.
check_global : List TradeRow → ℕ → CapsDecision
check_global table cap =
    let count = count_open_trades none table in
    if ltb 0 cap && leb cap count then over_cap max_open_trades_global count cap else not_blocked

unfoldable pub check_concurrent_caps : ℕ → List TradeRow → RiskSection → CapsDecision
unfolding check_global
check_concurrent_caps bot table risk =
    let per_bot_cap = risk.max_open_trades_per_bot in
    let count = count_open_trades (some bot) table in
    let global = check_global table risk.max_open_trades_global in
    if leb per_bot_cap 0 && leb risk.max_open_trades_global 0
    then not_blocked
    else if ltb 0 per_bot_cap && leb per_bot_cap count
    then over_cap max_open_trades_per_bot count per_bot_cap
    else global

-- The gate lets a signal pass exactly if each cap that is set exceeds its count of open trades, so
-- that one more trade keeps within both.
pub check_concurrent_caps-passes :
    (bot : ℕ) (table : List TradeRow) (risk : RiskSection)
    → ((check_concurrent_caps bot table risk).blocked ≡ false) ↔ (
        (0 < risk.max_open_trades_per_bot
          → count_open_trades (some bot) table + 1 ≤ risk.max_open_trades_per_bot)
        × (0 < risk.max_open_trades_global
            → count_open_trades none table + 1 ≤ risk.max_open_trades_global))
unfolding check_concurrent_caps
check_concurrent_caps-passes bot table risk = (λ h. (ground arith, ground arith), λ h. ground arith)
