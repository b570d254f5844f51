-- ===== src/Execution/Examples.antt =====
-- The service at one request, the fill of its emergency close, and a run of both.
use scalper_v.Base.{inl, ◌∷◌, arith, zero, suc, ◌≡◌, refl, true, false, none, some, []}
use scalper_v.Base.Int.{pos}
use scalper_v.Domain.{buy, sell, live}
use scalper_v.Decimal.{int, fixed}
use scalper_v.Engine.{Execution}
use scalper_v.Execution.{Desk, answer, fails, order_rejected, network_timeout, rate_limit_error}
use scalper_v.Execution.Emergency.{CloseEnv, Filled, emergency_close}
use scalper_v.Execution.Place.{Envelope, PlaceEnv, placed, emergency_closed}
use scalper_v.Execution.Statements.{find_order}
use scalper_v.Execution.Prices.{compute_notional_usd}
use scalper_v.Decimal.Columns.{column, numeric_sub}
use scalper_v.Execution.Handler.{handle}
use scalper_v.Execution.Attribution.{ExecutionEvent}
use scalper_v.Execution.Dispatch.{DispatchEnv, process}
use scalper_v.Execution.Halts.{of_placement, process-halts}
use scalper_v.Execution.Endings.{Leaves}
use scalper_v.Execution.Endings.Walk.{handle-Leaves}
use scalper_v.Execution.Watchdog.{Counters, count_of, WatchEnv, run_sl_watchdog_tick}
use scalper_v.Execution.Streaks.{missing, streak, sight}
use scalper_v.Execution.Streaks.Bots.{Bots}
use scalper_v.Execution.Streaks.Ticks.{run_sl_watchdog_tick-refines}
use scalper_v.Execution.Tracked.{IsTracked, trade_at, open_at, Unique}
use scalper_v.Execution.Tracked.Runs.{requests, fills, stay, and_next, Steps-IsTracked}

abbrev empty : Desk
empty = record {
  tables = record {
    orders = [];
    trades = [];
    position_state = [];
    executions = [];
    trading_events = [];
    next_order = 1;
    next_trade = 1;
  };
  calls = [];
  published = [];
  monitors = [];
}

abbrev execution : Execution
execution = record {
  qty = fixed (pos 15) 1;
  leverage = 5;
  sl_pct = fixed (pos 1) 2;
  tp_pct = fixed (pos 2) 2;
  tp_qty_pct = fixed (pos 5) 1;
  be_trigger = fixed (pos 1) 2;
  be_sl_level = fixed (pos 1) 3;
  trail_pct = fixed (pos 5) 3;
}

abbrev envelope : Envelope
envelope = record {
  request = record {
    bot_id = 7;
    signal_id = 42;
    symbol = 4;
    side = buy;
    execution = execution;
    mode = live;
    score = int (pos 7);
    sizing = none;
  };
  shadow_variants = 2;
  correlation_id = 9;
  published_at = 1000;
}

abbrev close_env : CloseEnv
close_env = record {
  reply = answer 91;
  commits = true;
  publishes_placed = true;
  publishes_closed = true;
  close_at = 1008;
}

abbrev calm : PlaceEnv
calm = record {
  total_equity = answer (int (pos 1000));
  mark_price = answer (int (pos 100));
  instrument = answer (record {
    qty_step = fixed (pos 1) 1;
    min_order_qty = fixed (pos 1) 1;
    tick_size = fixed (pos 1) 1;
  });
  set_leverage = answer tt;
  placed = answer (record { exchange_order_id = 90; placed_at = 1001; paper_trade_id = none });
  fill_price = λ n. elim n [ zero ↦ fails network_timeout | suc m ↦ answer (some (int (pos 100))) ];
  publishes_dlq = true;
  sets_sl = answer tt;
  sets_tp = fails rate_limit_error;
  closes = close_env;
  sl_set_at = 1004;
  commits = true;
  publishes_placed = true;
  publishes_moved = false;
  publishes_shadow = true;
}

-- The stop loss is refused.
abbrev refused : PlaceEnv
refused = record calm { sets_sl = fails order_rejected }

abbrev close_fill_event : ExecutionEvent
close_fill_event = record {
  exchange_exec_id = 500;
  exchange_order_id = 91;
  symbol = 4;
  side = sell;
  price = int (pos 99);
  qty = fixed (pos 15) 1;
  fee = fixed (pos 1) 2;
  executed_at = 1010;
}

abbrev dispatch_env : DispatchEnv
dispatch_env = record {
  now = 1011;
  before = answer (int (pos 0));
  after = answer (int (pos 0));
  commits = true;
  publishes_closed = true;
  publishes_trade = true;
}

handle-placed : (handle calm 5 7 envelope empty).1 ≡ placed
unfolding handle
handle-placed = refl

handle-flattened : (handle refused 5 7 envelope empty).1 ≡ emergency_closed
unfolding handle
handle-flattened = refl

handle-Leaves_example :
    Leaves refused 5 7 envelope empty
      (handle refused 5 7 envelope empty).0
      (handle refused 5 7 envelope empty).1
handle-Leaves_example = handle-Leaves refused 5 7 envelope empty

abbrev filled_order : Filled
filled_order = record {
  bot_id = 7;
  signal_id = 42;
  symbol = 4;
  side = buy;
  correlation_id = 9;
  published_at = 1000;
  exchange_order_id = 90;
  placed_at = 1001;
  fill_price = int (pos 100);
  qty = fixed (pos 15) 1;
}

process-halts_example :
    process dispatch_env 7 close_fill_event (emergency_close close_env filled_order empty).0
    ≡ ((emergency_close close_env filled_order empty).0, false)
unfolding find_order compute_notional_usd
process-halts_example =
    process-halts 7 91 4 empty (emergency_close close_env filled_order empty).0 dispatch_env
      close_fill_event (record { orders = tt; trades = tt }) refl
      (of_placement close_env filled_order (fixed (pos 1500000) 4) refl refl refl refl) refl refl

abbrev after_order : Desk
after_order = (handle calm 5 7 envelope empty).0

empty-IsTracked : IsTracked empty.tables
unfolding trade_at open_at Unique
empty-IsTracked = record {
  agree = λ b s id. (λ e. ground (arith, e), λ e. ground (arith, e));
  below = λ id l. refl;
  unique = tt;
}

-- A placement, then a fill of an order of the exchange's own, which closes half of the position.
abbrev target_fill : ExecutionEvent
target_fill = record close_fill_event { exchange_order_id = 300; qty = fixed (pos 7) 1 }

Steps-IsTracked_example : IsTracked (process dispatch_env 7 target_fill after_order).0.tables
Steps-IsTracked_example =
    Steps-IsTracked empty (process dispatch_env 7 target_fill after_order).0
      (and_next after_order (process dispatch_env 7 target_fill after_order).0
        (and_next empty after_order stay (requests calm 5 7 envelope refl))
        (fills dispatch_env 7 target_fill refl))
      empty-IsTracked

target_fill-booked : (process dispatch_env 7 target_fill after_order).1 ≡ true
unfolding process handle column numeric_sub
target_fill-booked = refl

-- The placed position has lost its stop for the second tick on end; another bot cannot be read.
abbrev naked : Bots
naked =
    (
      7,
      answer
          (record { symbol = 4; side = some buy; size = fixed (pos 15) 1; sl_price = none } ∷ []),
    )
    ∷ (8, fails network_timeout)
    ∷ []

abbrev watch_env : WatchEnv
watch_env = record { threshold = 3; closes = λ b s. close_env }

abbrev counters : Counters
counters = ((7, 4), 1) ∷ ((8, 4), 2) ∷ []

naked-missing : sight after_order.tables.position_state (7, 4) naked ≡ missing
unfolding sight handle
naked-missing = refl

run_sl_watchdog_tick-refines_example :
    count_of (7, 4) (run_sl_watchdog_tick watch_env naked counters after_order).0
    ≡ streak 3 (sight after_order.tables.position_state (7, 4) naked) (count_of (7, 4) counters)
run_sl_watchdog_tick-refines_example =
    run_sl_watchdog_tick-refines watch_env naked counters after_order 7 4 (λ b s. inl (91, refl))
      ((λ q. ground (arith, q), tt), ((tt, tt), (tt, tt)))
