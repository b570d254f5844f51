-- ===== src/Lifecycle/Moves.antt =====
-- The helpers of lifecycle.py: triggers, levels, extremes and the detection of overwritten stops.
use scalper_v.Base.{ℕ, Bool, true, false, Option, none, some, [], ◌∷◌, ◌++◌, if◌then◌else◌}
use scalper_v.Base.Int.{pos}
use scalper_v.Domain.{Side, buy, sell}
use scalper_v.Decimal.{Decimal, int, ◌<?◌, ◌≤?◌, ◌=?◌, ◌+ᵈ◌, ◌-ᵈ◌, ◌*ᵈ◌}
use scalper_v.Decimal.Division.{◌/ᵈ◌}
use scalper_v.Lifecycle.{SlType, PositionState, Position, Overwrite, Monitored}

favourable : Side → Decimal → Decimal → Decimal
unfolding ◌-ᵈ◌
favourable buy current entry = current -ᵈ entry
favourable sell current entry = entry -ᵈ current

reaches : Decimal → Option Decimal → Option Bool
reaches trigger none = none
reaches trigger (some move) = some (trigger ≤? move)

-- `_check_be_trigger`; `none` is the division by an entry price of zero.
unfoldable pub check_be_trigger : Side → Decimal → Decimal → Decimal → Option Bool
unfolding favourable reaches ◌/ᵈ◌
check_be_trigger side current entry trigger =
    reaches trigger (favourable side current entry /ᵈ entry)

unfoldable pub compute_be_sl_price : Side → Decimal → Decimal → Decimal
unfolding ◌+ᵈ◌ ◌-ᵈ◌ ◌*ᵈ◌
compute_be_sl_price buy entry level = entry *ᵈ (int (pos 1) +ᵈ level)
compute_be_sl_price sell entry level = entry *ᵈ (int (pos 1) -ᵈ level)

unfoldable pub compute_trail_sl_price : Side → Decimal → Decimal → Decimal
unfolding ◌+ᵈ◌ ◌-ᵈ◌ ◌*ᵈ◌
compute_trail_sl_price buy best pct = best *ᵈ (int (pos 1) -ᵈ pct)
compute_trail_sl_price sell best pct = best *ᵈ (int (pos 1) +ᵈ pct)

unfoldable pub update_best_price : Side → Decimal → Option Decimal → Decimal
unfolding ◌<?◌
update_best_price side current none = current
update_best_price buy current (some best) = if best <? current then current else best
update_best_price sell current (some best) = if current <? best then current else best

or_current : Decimal → Option Decimal → Decimal
or_current current none = current
or_current current (some old) = old

excursions : Side → Decimal → Decimal → Decimal → Decimal × Decimal
unfolding ◌<?◌
excursions buy current mfe mae =
    (if mfe <? current then current else mfe, if current <? mae then current else mae)
excursions sell current mfe mae =
    (if current <? mfe then current else mfe, if mae <? current then current else mae)

unfoldable pub update_mfe_mae : Side → Decimal → Option Decimal → Option Decimal → Decimal × Decimal
unfolding or_current excursions
update_mfe_mae side current mfe mae =
    excursions side current (or_current current mfe) (or_current current mae)

-- `insert_trading_event` of an overwrite.
abbrev pub report : Overwrite → Monitored → Monitored
report event w = record w { events = w.events ++ (event ∷ []) }

unfoldable pub observe : ℕ → Option SlType → Decimal → Option Position → Monitored → Monitored
unfolding ◌=?◌ ◌≤?◌
observe now type expected none w = w
observe now type expected (some p) w = if p.size ≤? int (pos 0) then w else elim p.sl_price [
  | none ↦ w
  | some observed ↦
      if observed =? expected
      then w
      else report
          (record {
            sl_type = type;
            expected_sl_price = expected;
            observed_sl_price = observed;
            occurred_at = now;
          })
          w
]

-- `_detect_sl_overwrite`, over whether `get_positions` succeeds.
unfoldable pub detect_sl_overwrite : ℕ → Bool → PositionState → Monitored → Monitored
unfolding observe
detect_sl_overwrite now reads r w = elim r.sl_price [
  | none ↦ w
  | some expected ↦ elim reads [ false ↦ w | true ↦ observe now r.sl_type expected w.exchange w ]
]
