-- ===== src/Lifecycle/InStep.antt =====
-- The stop of the row and that at the exchange move in step, and a stop that differs is reported.
use scalper_v.Base.{
  ℕ, ◌+◌, ◌≡◌, ◌≢◌, refl, sym, ◌∙◌, subst, if◌then◌else◌, arith, Bool, true, false, Option, none,
  some, List, [], ◌∷◌, All,
}
use scalper_v.Decimal.{Decimal, ◌=?◌}
use scalper_v.Decimal.Places.{FitsIn, column-kept}
use scalper_v.Lifecycle.{
  SlType, protective, be, trail, LifecycleState, breakeven_set, trailing_active, PositionState,
  FsmParams, Position, Monitored, Trade, missing, undecodable, price, StopOutcome, applied, refused,
  lost, TickInput, TickEnd, goes_on, closed, raised,
}
use scalper_v.Lifecycle.Moves.{
  observe, detect_sl_overwrite, check_be_trigger, compute_be_sl_price, compute_trail_sl_price,
  update_best_price,
}
use scalper_v.Quantize.{quantize_price, quantize_price-FitsIn}
use scalper_v.Lifecycle.Tick.{
  on_row, stopped_at, update_position_state_sl, set_stop, move_stop, break_even, follow,
  adjust_stop, on_price, tick, ticks, update_position_state_monitor_tick,
}

-- The stop at the exchange and that of the row, as the monitor compares them.
abbrev pub SameStop : Option Decimal → Option Decimal → Type 0
SameStop none none = Unit {0}
SameStop (some observed) (some expected) = (observed =? expected) ≡ true
SameStop none (some expected) = ⊥
SameStop (some observed) none = ⊥

abbrev pub AgreeAt : Option Decimal → Option Position → Type 0
AgreeAt sl none = Unit {0}
AgreeAt sl (some p) = SameStop p.sl_price sl

abbrev pub Agree : Option PositionState → Option Position → Type 0
Agree none x = Unit {0}
Agree (some r) x = AgreeAt r.sl_price x

-- The row and the exchange, where both are there, have the same stop: both none, or one value.
abbrev pub InStep : Monitored → Type 0
InStep w = Agree w.row w.exchange

-- No call of the tick raises after the exchange has set the stop, and the tick of the instrument has
-- twelve decimals at most, as the column has.
abbrev pub Proper : TickInput → Type 0
Proper i = (i.stop ≢ lost) × FitsIn 12 i.tick_size

-- The prices that a quantization to the tick gives.
abbrev OnGrid : TickInput → Option Decimal → Type 0
OnGrid i sl = (q : Decimal) → sl ≡ some q → FitsIn 12 q

-- What a tick must leave.
abbrev Quiet : Monitored → Monitored × TickEnd → Type 0
Quiet w (w', end) = InStep w' × (w'.events ≡ w.events)

moved_together :
    (sl : Decimal) (type : SlType) (now : ℕ) (row : Option PositionState) (x : Option Position)
    → FitsIn 12 sl
    → Agree (on_row (update_position_state_sl sl type now) row) (stopped_at sl x)
moved_together sl type now none x fits = tt
moved_together sl type now (some r) none fits = tt
moved_together sl type now (some r) (some p) fits = column-kept 12 sl fits

set_stop-Quiet :
    (outcome : StopOutcome) (sl : Decimal) (type : SlType) (state : LifecycleState) (now : ℕ)
    (w : Monitored)
    → outcome ≢ lost
    → FitsIn 12 sl
    → InStep w
    → Quiet w (set_stop outcome sl type state now w, goes_on)
unfolding set_stop
set_stop-Quiet applied sl type state now w h fits s =
    (moved_together sl type now w.row w.exchange fits, refl)
set_stop-Quiet refused sl type state now w h fits s = (s, refl)
set_stop-Quiet lost sl type state now w h fits s = absurd (h refl)

observe-steady :
    (now : ℕ) (type : Option SlType) (expected : Decimal) (x : Option Position) (w : Monitored)
    → AgreeAt (some expected) x
    → observe now type expected x w ≡ w
unfolding observe
observe-steady now type expected none w h = refl
observe-steady now type expected (some p) w h = ground (arith, h)

detect-steady :
    (now : ℕ) (reads : Bool) (r : PositionState) (w : Monitored)
    → Agree (some r) w.exchange
    → detect_sl_overwrite now reads r w ≡ w
unfolding detect_sl_overwrite
detect-steady now reads r w h =
    elim r.sl_price
        as (λ o.
          AgreeAt o w.exchange
          → elim o [
            | none ↦ w
            | some expected ↦ elim reads [
              | false ↦ w
              | true ↦ observe now r.sl_type expected w.exchange w
            ]
          ]
            ≡ w) [
              | none ↦ λ k. refl
              | some expected ↦ λ k.
                  elim reads
                    as (λ b.
                      elim b [ false ↦ w | true ↦ observe now r.sl_type expected w.exchange w ]
                      ≡ w) [
                        | false ↦ refl
                        | true ↦ observe-steady now r.sl_type expected w.exchange w k
                      ]
            ]
      h

move_stop-Quiet :
    (i : TickInput) (sl : Option Decimal) (type : SlType) (state : LifecycleState) (w : Monitored)
    → Proper i
    → OnGrid i sl
    → InStep w
    → Quiet w (move_stop i sl type state w)
unfolding move_stop
move_stop-Quiet i none type state w h grid s = (s, refl)
move_stop-Quiet i (some sl) type state w h grid s =
    set_stop-Quiet i.stop sl type state i.now w h.0 (grid sl refl) s

break_even-Quiet :
    (i : TickInput) (t : Trade) (k : FsmParams) (o : Option Bool) (w : Monitored)
    → Proper i
    → InStep w
    → Quiet w (break_even i t k o w)
unfolding break_even
break_even-Quiet i t k none w h s = (s, refl)
break_even-Quiet i t k (some false) w h s = (s, refl)
break_even-Quiet i t k (some true) w h s =
    move_stop-Quiet i _ be breakeven_set w h
      (λ q e.
        quantize_price-FitsIn 12 (compute_be_sl_price t.side t.entry_price k.be_sl_level) t.side
          i.tick_size q h.1 e)
      s

follow-Quiet :
    (i : TickInput) (t : Trade) (k : FsmParams) (best : Decimal) (o : Option Decimal)
    (w : Monitored)
    → Proper i
    → InStep w
    → Quiet w (follow i t k best o w)
unfolding follow
follow-Quiet i t k best none w h s = (s, refl)
follow-Quiet i t k best (some old) w h s =
    elim (best =? old)
      as (λ b. Quiet w (
        if b
        then (w, goes_on)
        else move_stop i
            (quantize_price (compute_trail_sl_price t.side best k.trail_pct) t.side i.tick_size)
            trail trailing_active w)) [
              | true ↦ (s, refl)
              | false ↦
                  move_stop-Quiet i _ trail trailing_active w h
                    (λ q e.
                      quantize_price-FitsIn 12 (compute_trail_sl_price t.side best k.trail_pct)
                        t.side i.tick_size q h.1 e)
                    s
            ]

adjust-Quiet :
    (i : TickInput) (t : Trade) (current : Decimal) (r : PositionState) (o : Option FsmParams)
    (w : Monitored)
    → Proper i
    → InStep w
    → Quiet w (adjust_stop i t current r o w)
unfolding adjust_stop
adjust-Quiet i t current r none w h s = (s, refl)
adjust-Quiet i t current r (some k) w h s =
    elim r.sl_type
      as (λ o. Quiet w (elim o [
        | none ↦ (w, goes_on)
        | some type ↦ elim type [
          | protective ↦
              break_even i t k (check_be_trigger t.side current t.entry_price k.be_trigger) w
          | be ↦ (w, goes_on)
          | trail ↦ follow i t k (update_best_price t.side current r.best_price) r.best_price w
        ]
      ])) [
        | none ↦ (s, refl)
        | some protective ↦ break_even-Quiet i t k _ w h s
        | some be ↦ (s, refl)
        | some trail ↦ follow-Quiet i t k _ r.best_price w h s
      ]

on_price-Quiet :
    (i : TickInput) (t : Trade) (current : Decimal) (o : Option PositionState) (w : Monitored)
    → Proper i
    → Agree o w.exchange
    → w.row ≡ o
    → Quiet w (on_price i t current o w)
unfolding on_price update_position_state_monitor_tick
on_price-Quiet i t current none w h s there = (subst (λ o. Agree o w.exchange) (sym there) tt, refl)
on_price-Quiet i t current (some r) w h s there =
    let updated = record w { row = some (update_position_state_monitor_tick t current i.now r) } in
    subst (λ v. Quiet w (adjust_stop i t current r w.params v))
      (sym (detect-steady i.now i.reads_position r updated s))
      (adjust-Quiet i t current r w.params updated h s)

tick-Quiet :
    (i : TickInput) (t : Trade) (w : Monitored) → Proper i → InStep w → Quiet w (tick i t w)
unfolding tick
tick-Quiet i t w h s =
    elim i.latest
      as (λ o. Quiet w (elim o [
        | missing ↦ (record w { stale_count = w.stale_count + 1 }, goes_on)
        | undecodable ↦ (record w { stale_count = w.stale_count + 1 }, goes_on)
        | price current ↦ on_price i t current w.row (record w { stale_count = 0 })
      ])) [
        | missing ↦ (s, refl)
        | undecodable ↦ (s, refl)
        | price current ↦ on_price-Quiet i t current w.row (record w { stale_count = 0 }) h s refl
      ]

-- If the row and the exchange have the same stop, no call of `set_trading_stop` raises after the
-- exchange has set the stop, and the tick size has twelve decimals at most, then through any ticks, with
-- any prices and failed reads, the two keep the same stop, which the column of the row keeps whole, and
-- no overwrite is reported.
pub ticks-InStep :
    (is : List TickInput) (t : Trade) (w : Monitored)
    → All Proper is
    → InStep w
    → InStep (ticks is t w).0 × ((ticks is t w).0.events ≡ w.events)
unfolding ticks
ticks-InStep [] t w h s = (s, refl)
ticks-InStep (i ∷ is) t w h s =
    let (s', quiet) = tick-Quiet i t w h.0 s in
    let (rest, silent) = ticks-InStep is t (tick i t w).0 h.1 s' in
    elim (tick i t w).1
      as (λ end. Quiet w (elim end [
        | goes_on ↦ ticks is t (tick i t w).0
        | closed ↦ ((tick i t w).0, closed)
        | raised ↦ ((tick i t w).0, raised)
      ])) [ goes_on ↦ (rest, silent ∙ quiet) | closed ↦ (s', quiet) | raised ↦ (s', quiet) ]
