-- ===== src/Risk/KillSwitch.antt =====
-- packages/db/queries/kill_switch.py: the persistent latch, one row for each bot, and
-- services/strategy_engine/app/kill_switch_reconcile.py, which looks at it again at startup.
-- The table is that of one bot; `none` is a bot with no row.
use scalper_v.Base.{ℕ, Bool, true, false, Option, none, some, ltb}
use scalper_v.Domain.{date}
use scalper_v.Decimal.{Decimal}

pub data TripReason : Type 0 where
  daily_loss_limit max_drawdown : TripReason

pub record KillSwitchState : Type 0 where
  pub tripped : Bool
  pub trip_reason : Option TripReason
  pub tripped_at : Option ℕ
  pub daily_anchor_date : Option ℕ
  pub cumulative_loss_usd : Option Decimal
  pub updated_at : ℕ

abbrev pub KillSwitchTable : Type 0
KillSwitchTable = Option KillSwitchState

stale_anchor : Option TripReason → Option ℕ → ℕ → Bool
stale_anchor (some daily_loss_limit) (some anchor) now = ltb anchor (date now)
stale_anchor (some daily_loss_limit) none now = false
stale_anchor (some max_drawdown) anchor now = false
stale_anchor none anchor now = false

unfoldable pub is_stale_daily_latch : KillSwitchState → ℕ → Bool
unfolding stale_anchor
is_stale_daily_latch s now = elim s.tripped [
  | true ↦ stale_anchor s.trip_reason s.daily_anchor_date now
  | false ↦ false
]

unfoldable pub upsert_kill_switch_trip :
    TripReason → ℕ → ℕ → Decimal → KillSwitchTable → KillSwitchTable
upsert_kill_switch_trip reason at anchor loss table = some (record {
  tripped = true;
  trip_reason = some reason;
  tripped_at = some at;
  daily_anchor_date = some anchor;
  cumulative_loss_usd = some loss;
  updated_at = at;
})

unfoldable pub clear_kill_switch : ℕ → KillSwitchTable → KillSwitchTable
clear_kill_switch at table = some (record {
  tripped = false;
  trip_reason = none;
  tripped_at = none;
  daily_anchor_date = none;
  cumulative_loss_usd = none;
  updated_at = at;
})

pub data ReconcileLog : Type 0 where
  no_state cleared_stale_daily_latch latch_retained not_tripped reconcile_failed : ReconcileLog

-- A database error at the read or at the clear is logged and swallowed.
unfoldable pub reconcile_kill_switch_on_startup :
    Bool → Bool → ℕ → KillSwitchTable → KillSwitchTable × ReconcileLog
unfolding is_stale_daily_latch clear_kill_switch
reconcile_kill_switch_on_startup false clears now table = (table, reconcile_failed)
reconcile_kill_switch_on_startup true clears now none = (none, no_state)
reconcile_kill_switch_on_startup true clears now (some s) = elim (is_stale_daily_latch s now) [
  | true ↦ elim clears [
    | true ↦ (clear_kill_switch now (some s), cleared_stale_daily_latch)
    | false ↦ (some s, reconcile_failed)
  ]
  | false ↦ elim s.tripped [ true ↦ (some s, latch_retained) | false ↦ (some s, not_tripped) ]
]
