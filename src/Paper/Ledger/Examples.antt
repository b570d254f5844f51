-- ===== src/Paper/Ledger/Examples.antt =====
-- The rows of trades at a concrete opening.
use scalper_v.Base.{◌≡◌, refl, true, false, none, some, List, [], ◌∷◌}
use scalper_v.Base.Int.{pos, negsuc}
use scalper_v.Domain.{buy}
use scalper_v.Decimal.{int, fixed}
use scalper_v.Paper.Price.{fixed_pct}
use scalper_v.Paper.Types.{sl, full_mode, partial_mode, Candle, Entry, OpenPart, Fill, Exchange}
use scalper_v.Paper.Fill.{fill_fee, commit_close}
use scalper_v.Paper.Orders.{Ticket, opened_entry, commit_open}
use scalper_v.Paper.Calls.{Call, order, stop, candle, after_all}
use scalper_v.Paper.Ledger.{IsBooked}
use scalper_v.Paper.Ledger.Commits.{commit_open-IsBooked}
use scalper_v.Paper.Ledger.Runs.{Settles, after_all-IsBooked, commit_close-Settles}

abbrev flat : Exchange
flat = record {
  seed_balance = int (pos 1000);
  slippage_model = fixed_pct (int (pos 0));
  fee_rate = fixed (pos 1) 3;
  has_callback = true;
  emit_parent_lifecycle = true;
  last_price = λ s. none;
  last_candle = λ s. none;
  active = λ s. none;
  pending = [];
  tables = record {
    orders = [];
    trades = [];
    executions = [];
    positions = [];
    next_order = 1;
    next_trade = 1;
  };
  emitted = [];
}

flat-IsBooked : IsBooked flat
flat-IsBooked = record { entered = λ j p o. cc; drawn = λ j p o. cc; apart = λ j k p q o u e. cc }

abbrev level : Candle
level = record {
  symbol = 3;
  bucket_start = 60;
  open_price = int (pos 100);
  high = int (pos 101);
  low = int (pos 99);
  close = int (pos 100);
  is_closed = true;
}

abbrev calls : List Call
calls =
    candle level 61
    ∷ order 3 buy (int (pos 2)) false 62
    ∷ stop 3
        (record {
          tpsl_mode = partial_mode;
          sl_price = some (int (pos 95));
          tp_price = some (int (pos 101));
          tp_size = some (int (pos 1));
          sl_type = none;
        })
        63
    ∷ candle level 121
    ∷ []

after_all-IsBooked_example : IsBooked (after_all calls flat)
after_all-IsBooked_example = after_all-IsBooked calls flat flat-IsBooked

-- Long 2 from 100, then stopped at 95.
abbrev bought : Ticket
bought = record {
  symbol = 3;
  side = buy;
  qty = int (pos 2);
  price = int (pos 100);
  fee = fixed (pos 2) 1;
  placed_at = 62;
}

abbrev opened : Exchange
opened = (commit_open bought (int (pos 200)) flat).1

abbrev part : OpenPart
part = record {
  trade_id = 1;
  side = buy;
  qty = int (pos 2);
  entry_price = int (pos 100);
  entry_fee = fixed (pos 2) 1;
  fees_paid = fixed (pos 2) 1;
  realized_pnl = none;
  tp_hit = false;
}

abbrev entry : Entry
entry = record {
  opened = some part;
  sl_price = none;
  tp_price = none;
  tp_size = none;
  tpsl_mode = full_mode;
  sl_type = none;
}

abbrev stop_fill : Fill
stop_fill = record {
  symbol = 3;
  side = buy;
  qty = int (pos 2);
  trigger_price = int (pos 95);
  triggered_at = 121;
  kind = sl;
  tpsl_mode = full_mode;
}

there : opened.active 3 ≡ some entry
unfolding commit_open opened_entry
there = refl

commit_close-Settles_example :
    Settles stop_fill part
      (fixed (negsuc 103_899) 4)
      (fill_fee opened stop_fill)
      opened.tables
      (commit_close stop_fill entry part (fixed (negsuc 103_899) 4) opened).tables
commit_close-Settles_example =
    commit_close-Settles stop_fill entry part (fixed (negsuc 103_899) 4) opened there refl
      (commit_open-IsBooked bought (int (pos 200)) flat flat-IsBooked)
