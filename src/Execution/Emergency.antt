-- ===== src/Execution/Emergency.antt =====
-- services/execution/app/placement_persist.py: `emergency_close` and
-- `emergency_close_tracked_position`. A transaction that fails leaves the tables as they were; the
-- keys that it drew are then drawn again here.
use scalper_v.Base.{ℕ, Bool, true, false, Option, none, some, ◌∷◌, if◌then◌else◌}
use scalper_v.Base.Int.{pos}
use scalper_v.Domain.{Side}
use scalper_v.Decimal.{Decimal, int}
use scalper_v.Execution.{
  filled, emergency_closed, OrderRow, emergency, opened, closed, Closing, PositionStateRow,
  OrderEvent, OrderClosed, order_placed, order_closed, sl_watchdog_emergency_close, TradingEvent,
  Tables, ExchangeError, rate_limit_error, auth_error, order_rejected, network_timeout,
  unknown_state, other_error, Reply, answer, fails, market_order, orders_event, Published, Desk,
  ExchangeCall,
}
use scalper_v.Execution.Statements.{
  insert_order, insert_trade, update_trade_lifecycle_state, update_trade_close,
  insert_trading_event, select_open_order_id_by_trade_id, delete_position_state,
}
use scalper_v.Execution.Prices.{compute_notional_usd, opposite_side}

-- How a coroutine ends: it returns, or an exception leaves it.
pub data Ended : Type 0 where
  returned raised : Ended

-- What is known of the order that was filled.
pub record Filled : Type 0 where
  pub bot_id : ℕ
  pub signal_id : ℕ
  pub symbol : ℕ
  pub side : Side
  pub correlation_id : ℕ
  pub published_at : ℕ
  pub exchange_order_id : ℕ
  pub placed_at : ℕ
  pub fill_price : Decimal
  pub qty : Decimal

-- What an emergency close meets: the reply to its order with the exchange's key, whether the
-- transaction commits and each publish succeeds, and its time.
pub record CloseEnv : Type 0 where
  pub reply : Reply ℕ
  pub commits : Bool
  pub publishes_placed : Bool
  pub publishes_closed : Bool
  pub close_at : ℕ

abbrev pub call : ExchangeCall → Desk → Desk
call c d = record d { calls = c ∷ d.calls }

-- A publish in its own `try`.
abbrev pub publish : Bool → Published → Desk → Desk
publish true m d = record d { published = m ∷ d.published }
publish false m d = d

abbrev pub event_of : ℕ → ℕ → ℕ → ℕ → ℕ → OrderEvent
event_of bot order exchange_id symbol at = record {
  bot_id = bot;
  order_id = order;
  exchange_order_id = exchange_id;
  symbol = symbol;
  timestamp = at;
}

abbrev pub flattened : OrderEvent → OrderClosed
flattened e = record { event = e; realized_pnl = int (pos 0); close_reason = emergency }

abbrev pub open_order : Filled → ℕ → OrderRow
open_order f at = record {
  id = 0;
  bot_id = f.bot_id;
  signal_id = f.signal_id;
  correlation_id = f.correlation_id;
  exchange_order_id = f.exchange_order_id;
  symbol = f.symbol;
  side = f.side;
  qty = f.qty;
  price = f.fill_price;
  status = emergency_closed;
  requested_at = f.published_at;
  filled_at = some f.placed_at;
  closed_at = some at;
}

abbrev pub close_order : Filled → ℕ → ℕ → OrderRow
close_order f exchange_id at = record (open_order f at) {
  exchange_order_id = exchange_id;
  side = opposite_side f.side;
  status = filled;
  requested_at = at;
  filled_at = some at;
}

abbrev pub emergency_closing : Filled → ℕ → ℕ → Closing
emergency_closing f at close_id = record {
  exit_price = f.fill_price;
  realized_pnl = int (pos 0);
  closed_at = at;
  close_reason = emergency;
  close_order_id = close_id;
}

-- The transaction of `emergency_close`: the tables, and the payloads of the two events.
unfoldable pub persist_emergency :
    Filled → ℕ → Decimal → ℕ → Tables → Tables × OrderEvent × OrderClosed
unfolding insert_order insert_trade update_trade_lifecycle_state update_trade_close
    insert_trading_event
persist_emergency f exchange_id notional at t =
    let (open_id, t1) = insert_order (open_order f at) t in
    let (close_id, t2) = insert_order (close_order f exchange_id at) t1 in
    let (trade_id, t3) =
      insert_trade f.bot_id f.signal_id open_id f.symbol f.side f.fill_price f.qty notional
        f.placed_at none t2 in
    let t4 = update_trade_lifecycle_state trade_id opened t3 in
    let closing = emergency_closing f at close_id in
    let t5 = update_trade_close trade_id closing (some (int (pos 0))) t4 in
    let t6 = update_trade_lifecycle_state trade_id closed t5 in
    let placed = event_of f.bot_id open_id f.exchange_order_id f.symbol f.placed_at in
    let flat = flattened (event_of f.bot_id close_id exchange_id f.symbol at) in
    let t7 =
      insert_trading_event
        (record { occurred_at = f.placed_at; bot_id = f.bot_id; payload = order_placed placed })
        t6 in
    let t8 =
      insert_trading_event
        (record { occurred_at = at; bot_id = f.bot_id; payload = order_closed flat }) t7 in
    (t8, placed, flat)

-- After the order is closed at the exchange under the key `exchange_id`.
unfoldable pub after_close : CloseEnv → Filled → ℕ → Option Decimal → Desk → Desk × Ended
unfolding persist_emergency
after_close env f exchange_id none d = (d, raised)
after_close env f exchange_id (some notional) d =
    let (t, placed, flat) = persist_emergency f exchange_id notional env.close_at d.tables in
    let d' = publish env.publishes_closed (orders_event (order_closed flat)) (
      publish env.publishes_placed (orders_event (order_placed placed))
        (record d { tables = t })) in
    (if env.commits then d' else d, returned)

-- What the handler of `place_market_order` does: only `UnknownState` is caught.
abbrev pub uncaught : ExchangeError → Ended
uncaught unknown_state = returned
uncaught rate_limit_error = raised
uncaught auth_error = raised
uncaught order_rejected = raised
uncaught network_timeout = raised
uncaught other_error = raised

unfoldable pub closed_by_reply : CloseEnv → Filled → Reply ℕ → Desk → Desk × Ended
unfolding after_close compute_notional_usd
closed_by_reply env f (answer exchange_id) d =
    after_close env f exchange_id (compute_notional_usd f.qty f.fill_price) d
closed_by_reply env f (fails e) d = (d, uncaught e)

unfoldable pub emergency_close : CloseEnv → Filled → Desk → Desk × Ended
unfolding closed_by_reply
emergency_close env f d =
    closed_by_reply env f env.reply
      (call (market_order f.symbol (opposite_side f.side) f.qty true) d)

-- The transaction of `emergency_close_tracked_position`, whose close order has no row of its own.
unfoldable pub persist_tracked : ℕ → PositionStateRow → ℕ → ℕ → ℕ → Tables → Tables × OrderClosed
unfolding update_trade_close update_trade_lifecycle_state delete_position_state insert_trading_event
persist_tracked bot row open_id exchange_id at t =
    let closing : Closing = record {
      exit_price = int (pos 0);
      realized_pnl = int (pos 0);
      closed_at = at;
      close_reason = emergency;
      close_order_id = open_id;
    } in
    let flat = flattened (event_of bot open_id exchange_id row.symbol at) in
    let t1 = update_trade_close row.trade_id closing none t in
    let t2 = update_trade_lifecycle_state row.trade_id closed t1 in
    let t3 = delete_position_state bot row.symbol t2 in
    let e : TradingEvent = record {
      occurred_at = at;
      bot_id = bot;
      payload = sl_watchdog_emergency_close flat;
    } in
    (insert_trading_event e t3, flat)

unfoldable pub tracked_by_order :
    CloseEnv → ℕ → PositionStateRow → ℕ → Option ℕ → Desk → Desk × Ended
unfolding persist_tracked
tracked_by_order env bot row exchange_id none d = (d, returned)
tracked_by_order env bot row exchange_id (some open_id) d =
    let (t, flat) = persist_tracked bot row open_id exchange_id env.close_at d.tables in
    if env.commits
    then (
      publish env.publishes_closed (orders_event (order_closed flat)) (record d { tables = t }),
      returned,
    )
    else (d, returned)

unfoldable pub tracked_by_reply : CloseEnv → ℕ → PositionStateRow → Reply ℕ → Desk → Desk × Ended
unfolding tracked_by_order select_open_order_id_by_trade_id
tracked_by_reply env bot row (answer exchange_id) d =
    tracked_by_order env bot row exchange_id
      (select_open_order_id_by_trade_id row.trade_id d.tables) d
tracked_by_reply env bot row (fails e) d = (d, uncaught e)

unfoldable pub emergency_close_tracked_position :
    CloseEnv → ℕ → PositionStateRow → Desk → Desk × Ended
unfolding tracked_by_reply
emergency_close_tracked_position env bot row d =
    tracked_by_reply env bot row env.reply
      (call (market_order row.symbol (opposite_side row.side) row.remaining_qty true) d)
