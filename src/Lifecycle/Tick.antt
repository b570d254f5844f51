-- ===== src/Lifecycle/Tick.antt =====
-- One pass of the loop of `run_position_monitor_for_trade`, and its passes in a row. What is written to
-- `position_state` is rounded to the scale of its columns (migrations/versions/0006_position_state.py).
use scalper_v.Base.{ℕ, ◌+◌, Bool, true, false, Option, none, some, List, [], ◌∷◌, if◌then◌else◌}
use scalper_v.Domain.{Side, buy, sell}
use scalper_v.Decimal.{Decimal, ◌=?◌, ◌-ᵈ◌, ◌*ᵈ◌, int}
use scalper_v.Decimal.Columns.{quantity_column, money_column}
use scalper_v.Base.Int.{pos, negsuc}
use scalper_v.Quantize.{quantize_price}
use scalper_v.Lifecycle.{
  SlType, protective, be, trail, LifecycleState, breakeven_set, trailing_active, PositionState,
  FsmParams, Position, Monitored, Trade, missing, undecodable, price, StopOutcome, applied, refused,
  lost, TickInput, TickEnd, goes_on, closed, raised,
}
use scalper_v.Lifecycle.Moves.{
  check_be_trigger, compute_be_sl_price, compute_trail_sl_price, update_best_price, update_mfe_mae,
  detect_sl_overwrite,
}

-- `side_factor`
abbrev side_factor : Side → Decimal
side_factor buy = int (pos 1)
side_factor sell = int (negsuc 0)

-- `update_position_state_monitor_tick`
unfoldable pub update_position_state_monitor_tick :
    Trade → Decimal → ℕ → PositionState → PositionState
unfolding update_best_price update_mfe_mae ◌-ᵈ◌ ◌*ᵈ◌
update_position_state_monitor_tick t current now r =
    let (mfe, mae) = update_mfe_mae t.side current r.mfe_price r.mae_price in
    record r {
      best_price = some (quantity_column (update_best_price t.side current r.best_price));
      mfe_price = some (quantity_column mfe);
      mae_price = some (quantity_column mae);
      running_pnl = money_column ((current -ᵈ t.entry_price) *ᵈ t.qty *ᵈ side_factor t.side);
      updated_at = now;
    }

-- `update_position_state_sl`
abbrev pub update_position_state_sl : Decimal → SlType → ℕ → PositionState → PositionState
update_position_state_sl sl type now r = record r {
  sl_price = some (quantity_column sl);
  sl_type = some type;
  updated_at = now;
}

abbrev pub on_row : (PositionState → PositionState) → Option PositionState → Option PositionState
on_row f none = none
on_row f (some r) = some (f r)

abbrev pub stopped_at : Decimal → Option Position → Option Position
stopped_at sl none = none
stopped_at sl (some p) = some (record p { sl_price = some sl })

-- `set_trading_stop`, and what follows it in the `else` branch.
unfoldable pub set_stop :
    StopOutcome → Decimal → SlType → LifecycleState → ℕ → Monitored → Monitored
set_stop refused sl type state now w = w
set_stop lost sl type state now w = record w { exchange = stopped_at sl w.exchange }
set_stop applied sl type state now w = record w {
  exchange = stopped_at sl w.exchange;
  row = on_row (update_position_state_sl sl type now) w.row;
  state = state;
}

-- A move of the stop; `none` is the `ValueError` of `quantize_price`.
unfoldable pub move_stop :
    TickInput → Option Decimal → SlType → LifecycleState → Monitored → Monitored × TickEnd
unfolding set_stop
move_stop i none type state w = (w, raised)
move_stop i (some sl) type state w = (set_stop i.stop sl type state i.now w, goes_on)

unfoldable pub break_even :
    TickInput → Trade → FsmParams → Option Bool → Monitored → Monitored × TickEnd
unfolding move_stop compute_be_sl_price quantize_price
break_even i t k none w = (w, raised)
break_even i t k (some false) w = (w, goes_on)
break_even i t k (some true) w =
    move_stop i
      (quantize_price (compute_be_sl_price t.side t.entry_price k.be_sl_level) t.side i.tick_size)
      be breakeven_set w

unfoldable pub follow :
    TickInput → Trade → FsmParams → Decimal → Option Decimal → Monitored → Monitored × TickEnd
unfolding move_stop compute_trail_sl_price quantize_price ◌=?◌
follow i t k new_best none w = (w, goes_on)
follow i t k new_best (some best) w =
    if new_best =? best
    then (w, goes_on)
    else move_stop i
        (quantize_price (compute_trail_sl_price t.side new_best k.trail_pct) t.side i.tick_size)
        trail trailing_active w

-- The adjustment of the stop, by the type that the row had at the start of the tick.
unfoldable pub adjust_stop :
    TickInput → Trade → Decimal → PositionState → Option FsmParams → Monitored → Monitored × TickEnd
unfolding break_even follow check_be_trigger update_best_price
adjust_stop i t current r none w = (w, goes_on)
adjust_stop i t current r (some k) w = elim r.sl_type [
  | none ↦ (w, goes_on)
  | some type ↦ elim type [
    | protective ↦ break_even i t k (check_be_trigger t.side current t.entry_price k.be_trigger) w
    | be ↦ (w, goes_on)
    | trail ↦ follow i t k (update_best_price t.side current r.best_price) r.best_price w
  ]
]

unfoldable pub on_price :
    TickInput → Trade → Decimal → Option PositionState → Monitored → Monitored × TickEnd
unfolding update_position_state_monitor_tick detect_sl_overwrite adjust_stop
on_price i t current none w = (w, closed)
on_price i t current (some r) w =
    let updated = record w { row = some (update_position_state_monitor_tick t current i.now r) } in
    adjust_stop i t current r w.params (detect_sl_overwrite i.now i.reads_position r updated)

-- One tick, from the read of the latest price.
unfoldable pub tick : TickInput → Trade → Monitored → Monitored × TickEnd
unfolding on_price
tick i t w = elim i.latest [
  | missing ↦ (record w { stale_count = w.stale_count + 1 }, goes_on)
  | undecodable ↦ (record w { stale_count = w.stale_count + 1 }, goes_on)
  | price current ↦ on_price i t current w.row (record w { stale_count = 0 })
]

-- The loop over the ticks, until one of them ends it.
unfoldable pub ticks : List TickInput → Trade → Monitored → Monitored × TickEnd
unfolding tick
ticks [] t w = (w, goes_on)
ticks (i ∷ is) t w =
    let next = ticks is t (tick i t w).0 in
    elim (tick i t w).1 [
      | goes_on ↦ next
      | closed ↦ ((tick i t w).0, closed)
      | raised ↦ ((tick i t w).0, raised)
    ]
