-- ===== src/Lifecycle/Detects.antt =====
-- Ticks report where the stops differ.
use scalper_v.Base.{
  ℕ, ◌≡◌, refl, ap, ◌∙◌, arith, Bool, true, false, Option, none, some, [], ◌∷◌, ◌++◌, if◌then◌else◌,
}
use scalper_v.Decimal.{Decimal, ◌≤?◌, ◌=?◌, int}
use scalper_v.Base.Int.{pos}
use scalper_v.Quantize.{quantize_price}
use scalper_v.Lifecycle.{
  SlType, protective, be, trail, LifecycleState, breakeven_set, trailing_active, PositionState,
  FsmParams, Position, Monitored, Trade, price, TickInput, TickEnd, goes_on,
}
use scalper_v.Lifecycle.Moves.{
  observe, detect_sl_overwrite, report, check_be_trigger, compute_trail_sl_price, update_best_price,
}
use scalper_v.Lifecycle.Tick.{
  set_stop, move_stop, break_even, follow, adjust_stop, on_price, tick,
  update_position_state_monitor_tick,
}

-- A readable price, a position that is open, and two stops that differ: the tick reports it.
observe-differs :
    (now : ℕ) (type : Option SlType) (expected observed : Decimal) (p : Position) (w : Monitored)
    → p.sl_price ≡ some observed
    → (p.size ≤? int (pos 0)) ≡ false
    → (observed =? expected) ≡ false
    → observe now type expected (some p) w
      ≡ report
          (record {
            sl_type = type;
            expected_sl_price = expected;
            observed_sl_price = observed;
            occurred_at = now;
          })
          w
unfolding observe
observe-differs now type expected observed p w there open' differs = ground arith

detect-differs :
    (now : ℕ) (reads : Bool) (r : PositionState) (expected observed : Decimal) (p : Position)
    (w : Monitored)
    → reads ≡ true
    → r.sl_price ≡ some expected
    → w.exchange ≡ some p
    → p.sl_price ≡ some observed
    → (p.size ≤? int (pos 0)) ≡ false
    → (observed =? expected) ≡ false
    → detect_sl_overwrite now reads r w
      ≡ report
          (record {
            sl_type = r.sl_type;
            expected_sl_price = expected;
            observed_sl_price = observed;
            occurred_at = now;
          })
          w
unfolding detect_sl_overwrite
detect-differs now reads r expected observed p w ok set held there open' differs =
    ground (arith, observe-differs now r.sl_type expected observed p w there open' differs)

-- What adjusts the stop reports nothing.
abbrev Silent : Monitored → Monitored × TickEnd → Type 0
Silent w (w', end) = w'.events ≡ w.events

move_stop-Silent :
    (i : TickInput) (sl : Option Decimal) (type : SlType) (state : LifecycleState) (w : Monitored)
    → Silent w (move_stop i sl type state w)
unfolding move_stop set_stop
move_stop-Silent i none type state w = refl
move_stop-Silent i (some sl) type state w = ground arith

break_even-Silent :
    (i : TickInput) (t : Trade) (k : FsmParams) (o : Option Bool) (w : Monitored)
    → Silent w (break_even i t k o w)
unfolding break_even
break_even-Silent i t k none w = refl
break_even-Silent i t k (some false) w = refl
break_even-Silent i t k (some true) w = move_stop-Silent i _ be breakeven_set w

follow-Silent :
    (i : TickInput) (t : Trade) (k : FsmParams) (best : Decimal) (o : Option Decimal)
    (w : Monitored)
    → Silent w (follow i t k best o w)
unfolding follow
follow-Silent i t k best none w = refl
follow-Silent i t k best (some old) w =
    elim (best =? old)
      as (λ b. Silent w (
        if b
        then (w, goes_on)
        else move_stop i
            (quantize_price (compute_trail_sl_price t.side best k.trail_pct) t.side i.tick_size)
            trail trailing_active w)) [
              | true ↦ refl
              | false ↦ move_stop-Silent i _ trail trailing_active w
            ]

adjust-Silent :
    (i : TickInput) (t : Trade) (current : Decimal) (r : PositionState) (o : Option FsmParams)
    (w : Monitored)
    → Silent w (adjust_stop i t current r o w)
unfolding adjust_stop
adjust-Silent i t current r none w = refl
adjust-Silent i t current r (some k) w =
    elim r.sl_type
      as (λ o. Silent w (elim o [
        | none ↦ (w, goes_on)
        | some type ↦ elim type [
          | protective ↦
              break_even i t k (check_be_trigger t.side current t.entry_price k.be_trigger) w
          | be ↦ (w, goes_on)
          | trail ↦ follow i t k (update_best_price t.side current r.best_price) r.best_price w
        ]
      ])) [
        | none ↦ refl
        | some protective ↦ break_even-Silent i t k _ w
        | some be ↦ refl
        | some trail ↦ follow-Silent i t k _ r.best_price w
      ]

tick-priced :
    (i : TickInput) (t : Trade) (w : Monitored) (current : Decimal) (r : PositionState)
    → i.latest ≡ price current
    → w.row ≡ some r
    → tick i t w ≡ on_price i t current (some r) (record w { stale_count = 0 })
unfolding tick
tick-priced i t w current r priced there = ground arith

-- Whenever a tick reads a price and the position, the row has a stop, and the exchange has an open
-- position with another stop, the tick adds exactly one report, of the two stops.
pub tick-detects :
    (i : TickInput) (t : Trade) (w : Monitored) (current expected observed : Decimal)
    (r : PositionState) (p : Position)
    → i.latest ≡ price current
    → i.reads_position ≡ true
    → w.row ≡ some r
    → r.sl_price ≡ some expected
    → w.exchange ≡ some p
    → p.sl_price ≡ some observed
    → (p.size ≤? int (pos 0)) ≡ false
    → (observed =? expected) ≡ false
    → (tick i t w).0.events
      ≡ w.events
        ++ (record {
          sl_type = r.sl_type;
          expected_sl_price = expected;
          observed_sl_price = observed;
          occurred_at = i.now;
        }
            ∷ [])
unfolding on_price update_position_state_monitor_tick
tick-detects i t w current expected observed r p priced reads there set held shown open' differs =
    let updated : Monitored = record w {
      stale_count = 0;
      row = some (update_position_state_monitor_tick t current i.now r);
    } in
    ap (λ s. s.0.events) (tick-priced i t w current r priced there)
    ∙ adjust-Silent i t current r w.params (detect_sl_overwrite i.now i.reads_position r updated)
    ∙ ap (λ v. v.events)
        (detect-differs i.now i.reads_position r expected observed p updated reads set held shown
          open' differs)
