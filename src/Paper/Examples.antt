-- ===== src/Paper/Examples.antt =====
-- The paper exchange at a concrete long position.
use scalper_v.Base.{◌≡◌, refl, true, false, none, some, List, [], ◌∷◌}
use scalper_v.Base.Int.{pos, negsuc}
use scalper_v.Domain.{buy}
use scalper_v.Decimal.{int, fixed, ◌≤?◌, ◌<?◌, ◌-ᵈ◌}
use scalper_v.Paper.Price.{fixed_pct, compute_fee, compute_realized_pnl}
use scalper_v.Paper.Types.{
  sl, tp, full_mode, partial_mode, Candle, Entry, OpenPart, open_exec, Tables, Exchange, put,
  protective,
}
use scalper_v.Paper.Fill.{commit_close}
use scalper_v.Paper.Candle.{fill_of, crossed, on_candle, process_replay_candle}
use scalper_v.Paper.Calls.{Call, order, stop, cancel, candle, replayed, after_all}
use scalper_v.Paper.Crossing.{seen, on_candle-stop_first, on_candle-partial_again}
use scalper_v.Paper.Replay.{replayed_in, process_replay_candle-target_first}
use scalper_v.Paper.Restart.{joined, restarted, start_consuming}
use scalper_v.Paper.Mirror.{position_of, IsMirrored, IsExact}
use scalper_v.Paper.Mirror.Runs.{after_all-IsMirrored}
use scalper_v.Paper.Mirror.Hydrate.{Joins, Forgotten, restart-IsMirrored, restart-Forgotten}

abbrev no_tables : Tables
no_tables = record {
  orders = [];
  trades = [];
  executions = [];
  positions = [];
  next_order = 1;
  next_trade = 1;
}

abbrev flat : Exchange
flat = record {
  seed_balance = int (pos 1000);
  slippage_model = fixed_pct (int (pos 0));
  fee_rate = fixed (pos 1) 3;
  has_callback = true;
  emit_parent_lifecycle = true;
  last_price = λ s. none;
  last_candle = λ s. none;
  active = λ s. none;
  pending = [];
  tables = no_tables;
  emitted = [];
}

-- A candle that rises from 100 to 101 over the range from 90 to 110.
abbrev wide : Candle
wide = record {
  symbol = 3;
  bucket_start = 60;
  open_price = int (pos 100);
  high = int (pos 110);
  low = int (pos 90);
  close = int (pos 101);
  is_closed = true;
}

-- A candle over the range from 97 to 110.
abbrev upper : Candle
upper = record wide { low = int (pos 97) }

abbrev calls : List Call
calls =
    candle wide 61
    ∷ order 3 buy (int (pos 2)) false 62
    ∷ stop 3
        (record {
          tpsl_mode = partial_mode;
          sl_price = some (int (pos 95));
          tp_price = some (int (pos 105));
          tp_size = some (int (pos 1));
          sl_type = none;
        })
        63
    ∷ candle upper 121
    ∷ order 3 buy (int (pos 1)) false 122
    ∷ replayed wide
    ∷ cancel 1
    ∷ []

flat-IsMirrored : IsMirrored flat
unfolding position_of
flat-IsMirrored j = tt

after_all-IsMirrored_example : IsMirrored (after_all calls flat)
after_all-IsMirrored_example = after_all-IsMirrored calls flat flat-IsMirrored

-- Long 2 from 100 with the stop loss at 95 and the take profit at 105.
abbrev long_two : OpenPart
long_two = record {
  trade_id = 1;
  side = buy;
  qty = int (pos 2);
  entry_price = int (pos 100);
  entry_fee = fixed (pos 2) 1;
  fees_paid = fixed (pos 2) 1;
  realized_pnl = none;
  tp_hit = false;
}

abbrev guarded : Entry
guarded = record {
  opened = some long_two;
  sl_price = some (int (pos 95));
  tp_price = some (int (pos 105));
  tp_size = some (int (pos 1));
  tpsl_mode = full_mode;
  sl_type = some protective;
}

abbrev long_position : Entry → Exchange
long_position e = record flat { active = put 3 (some e) (λ s. none) }

stop_below : (int (pos 90) ≤? int (pos 95)) ≡ true
unfolding ◌≤?◌
stop_below = refl

stop_above : (int (pos 95) ≤? int (pos 110)) ≡ true
unfolding ◌≤?◌
stop_above = refl

-- 2 * (95 - 100) - 0.2 - 0.19
stop_pnl :
    compute_realized_pnl buy
      (int (pos 100))
      (int (pos 95))
      (int (pos 2))
      (fixed (pos 2) 1)
      (compute_fee (int (pos 2)) (int (pos 95)) (fixed (pos 1) 3))
    ≡ some (fixed (negsuc 103_899) 4)
unfolding compute_realized_pnl compute_fee
stop_pnl = refl

on_candle-stop_first_example : on_candle wide 61 (long_position guarded) ≡ (
  none,
  commit_close
      (fill_of 3 61 guarded long_two sl (int (pos 2)) (int (pos 95)))
      guarded
      long_two
      (fixed (negsuc 103_899) 4)
      (seen wide (long_position guarded)),
)
on_candle-stop_first_example =
    on_candle-stop_first wide 61 (long_position guarded) guarded long_two (int (pos 95))
      (fixed (negsuc 103_899) 4) refl refl refl refl refl stop_below stop_above stop_pnl

-- 2 * (105 - 100) - 0.2 - 0.21
target_pnl :
    compute_realized_pnl buy
      (int (pos 100))
      (int (pos 105))
      (int (pos 2))
      (fixed (pos 2) 1)
      (compute_fee (int (pos 2)) (int (pos 105)) (fixed (pos 1) 3))
    ≡ some (fixed (pos 95_900) 4)
unfolding compute_realized_pnl compute_fee
target_pnl = refl

comparisons :
    ((int (pos 90) ≤? int (pos 100)) ≡ true)
    × ((int (pos 100) ≤? int (pos 101)) ≡ true)
    × ((int (pos 101) ≤? int (pos 110)) ≡ true)
    × ((int (pos 95) <? int (pos 100)) ≡ true)
    × ((int (pos 100) ≤? int (pos 105)) ≡ true)
    × ((int (pos 105) ≤? int (pos 110)) ≡ true)
    × ((int (pos 97) ≤? int (pos 105)) ≡ true)
    × (crossed (int (pos 97)) (int (pos 110)) (some (int (pos 95))) ≡ none)
unfolding ◌≤?◌ ◌<?◌ crossed
comparisons = (refl, refl, refl, refl, refl, refl, refl, refl)

process_replay_candle-target_first_example : process_replay_candle wide (long_position guarded) ≡ (
  none,
  commit_close
      (fill_of 3 60 guarded long_two tp (int (pos 2)) (int (pos 105)))
      guarded
      long_two
      (fixed (pos 95_900) 4)
      (replayed_in wide (long_position guarded)),
)
process_replay_candle-target_first_example =
    process_replay_candle-target_first wide (long_position guarded) guarded long_two (int (pos 95))
      (int (pos 105)) (fixed (pos 95_900) 4) comparisons.0 comparisons.1 comparisons.2 refl refl
      refl refl refl comparisons.3 refl comparisons.4 comparisons.5 target_pnl

-- The take profit in two parts, of which the first was filled.
abbrev hit_once : OpenPart
hit_once = record long_two {
  qty = int (pos 1);
  tp_hit = true;
  realized_pnl = some (fixed (pos 48_950) 4);
}

abbrev in_parts : Entry
in_parts = record guarded { opened = some hit_once; tpsl_mode = partial_mode }

-- 1 * (105 - 100) - 0.105
partial_pnl :
    compute_realized_pnl buy
      (int (pos 100))
      (int (pos 105))
      (int (pos 1))
      (int (pos 0))
      (compute_fee (int (pos 1)) (int (pos 105)) (fixed (pos 1) 3))
    ≡ some (fixed (pos 48_950) 4)
unfolding compute_realized_pnl compute_fee
partial_pnl = refl

on_candle-partial_again_example :
    (e : Entry) × (p : OpenPart) × ((on_candle upper 121 (long_position in_parts)).1.active 3
      ≡ some e)
    × (e.opened ≡ some p)
    × (e.tp_price ≡ some (int (pos 105)))
    × (e.tp_size ≡ some (int (pos 1)))
    × (e.tpsl_mode ≡ partial_mode)
    × (p.qty ≡ int (pos 1) -ᵈ int (pos 1))
    × (p.tp_hit ≡ true)
on_candle-partial_again_example =
    on_candle-partial_again upper 121 (long_position in_parts) in_parts hit_once (int (pos 105))
      (int (pos 1)) (fixed (pos 48_950) 4) refl refl refl refl comparisons.7 refl refl refl
      comparisons.6 comparisons.5 partial_pnl

-- The tables of that position, as they stand at a restart.
abbrev stored : Tables
stored = record no_tables {
  trades =
      record {
        id = 1;
        open_order_id = 1;
        symbol = 3;
        side = buy;
        entry_price = int (pos 100);
        qty = int (pos 1);
        notional_usd = int (pos 200);
        fees_paid = fixed (pos 305) 3;
        realized_pnl = some (fixed (pos 48_950) 4);
        opened_at = 62;
        closing = none;
      }
      ∷ [];
  executions =
      record {
        order_id = 1;
        trade_id = 1;
        symbol = 3;
        side = buy;
        price = int (pos 100);
        qty = int (pos 2);
        fee = fixed (pos 2) 1;
        exec_type = open_exec;
        executed_at = 62;
      }
      ∷ [];
  positions =
      record {
        symbol = 3;
        trade_id = 1;
        side = buy;
        entry_price = int (pos 100);
        qty = int (pos 2);
        remaining_qty = int (pos 1);
        sl_price = some (int (pos 95));
        tp_price = some (int (pos 105));
        tp_hit = true;
        updated_at = 121;
      }
      ∷ [];
}

abbrev stopped : Exchange
stopped = record flat { tables = stored }

stored-Joins : Joins stored stored.positions
unfolding joined
stored-Joins = (refl, tt)

restart-IsMirrored_example : IsExact (start_consuming none (restarted stopped))
restart-IsMirrored_example = restart-IsMirrored stopped stored-Joins

restart-Forgotten_example : Forgotten ((start_consuming none (restarted stopped)).active 3)
restart-Forgotten_example = restart-Forgotten stopped 3
