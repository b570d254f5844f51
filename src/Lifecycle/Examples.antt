-- ===== src/Lifecycle/Examples.antt =====
-- The monitor at a concrete long trade.
use scalper_v.Base.{ℕ, ◌≡◌, refl, true, false, none, some, List, [], ◌∷◌, All, arith}
use scalper_v.Base.Int.{pos}
use scalper_v.Domain.{buy, sell}
use scalper_v.Decimal.{Decimal, int, fixed, ◌≤?◌, ◌=?◌}
use scalper_v.Lifecycle.{
  protective, other_state, PositionState, FsmParams, Monitored, Trade, missing, price, applied,
  refused, lost, TickInput,
}
use scalper_v.Lifecycle.Tick.{tick, ticks}
use scalper_v.Decimal.Places.{FitsIn}
use scalper_v.Lifecycle.InStep.{InStep, ticks-InStep}
use scalper_v.Lifecycle.Detects.{tick-detects}
use scalper_v.Lifecycle.Extremes.{best_of, NoBetter, Occurs, best_of-extremal}

abbrev long_trade : Trade
long_trade = record { side = buy; entry_price = int (pos 100); qty = int (pos 2) }

abbrev row : PositionState
row = record {
  best_price = none;
  mfe_price = none;
  mae_price = none;
  running_pnl = int (pos 0);
  sl_price = some (int (pos 95));
  sl_type = some protective;
  updated_at = 0;
}

abbrev params : FsmParams
params = record {
  be_trigger = fixed (pos 1) 2;
  be_sl_level = fixed (pos 1) 3;
  trail_pct = fixed (pos 5) 3;
}

abbrev watched : ℕ → Monitored
watched stop = record {
  row = some row;
  params = some params;
  state = other_state;
  exchange = some (record { size = int (pos 2); sl_price = some (int (pos stop)) });
  events = [];
  stale_count = 0;
}

-- At 102 the stop moves to break even.
abbrev at_102 : TickInput
at_102 = record {
  latest = price (int (pos 102));
  reads_position = true;
  tick_size = fixed (pos 1) 1;
  stop = applied;
  now = 10;
}

abbrev inputs : List TickInput
inputs = at_102 ∷ record at_102 { latest = missing } ∷ record at_102 { stop = refused } ∷ []

fine : FitsIn 12 at_102.tick_size
fine = omega arith

same : InStep (watched 95)
unfolding ◌=?◌ ◌≤?◌
same = refl

ticks-InStep_example :
    InStep (ticks inputs long_trade (watched 95)).0
    × ((ticks inputs long_trade (watched 95)).0.events ≡ [])
ticks-InStep_example =
    ticks-InStep inputs long_trade (watched 95)
      (((λ h. cc), fine), (((λ h. cc), fine), (((λ h. cc), fine), tt))) same

open_there : (int (pos 2) ≤? int (pos 0)) ≡ false
unfolding ◌≤?◌
open_there = refl

differs : (int (pos 90) =? int (pos 95)) ≡ false
unfolding ◌=?◌
differs = refl

-- The stop at the exchange was moved to 90 by hand.
tick-detects_example :
    (tick at_102 long_trade (watched 90)).0.events
    ≡ record {
      sl_type = some protective;
      expected_sl_price = int (pos 95);
      observed_sl_price = int (pos 90);
      occurred_at = 10;
    }
      ∷ []
tick-detects_example =
    tick-detects at_102 long_trade (watched 90) (int (pos 102)) (int (pos 95)) (int (pos 90)) row
      (record { size = int (pos 2); sl_price = some (int (pos 90)) }) refl refl refl refl refl refl
      open_there differs

best_of-extremal_example :
    (b : Decimal) × (best_of sell (int (pos 99) ∷ int (pos 97) ∷ int (pos 101) ∷ []) ≡ some b)
    × All (λ q. NoBetter sell q b) (int (pos 99) ∷ int (pos 97) ∷ int (pos 101) ∷ [])
    × Occurs b (int (pos 99) ∷ int (pos 97) ∷ int (pos 101) ∷ [])
best_of-extremal_example = best_of-extremal sell (int (pos 99)) (int (pos 97) ∷ int (pos 101) ∷ [])

-- Test: a stop that the exchange sets before the call raises is reported at the next tick as an
-- overwrite, though no one but the monitor has moved it.
reported_after_loss :
    (ticks (record at_102 { stop = lost } ∷ at_102 ∷ []) long_trade (watched 95)).0.events
    ≡ record {
      sl_type = some protective;
      expected_sl_price = int (pos 95);
      observed_sl_price = fixed (pos 1001) 1;
      occurred_at = 10;
    }
      ∷ []
unfolding ticks
reported_after_loss = refl
