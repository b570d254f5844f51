-- ===== src/Execution/Statements.antt =====
-- packages/db/queries/execution.py: the statements that the placement, the dispatcher, the watchdog
-- and the reconciliation run. A key is drawn from the table's counter.
use scalper_v.Base.{
  ℕ, ◌+◌, Bool, true, false, Option, none, some, List, [], ◌∷◌, ◌==◌, leb, ◌&&◌, ◌||◌,
  if◌then◌else◌,
}
use scalper_v.Base.Int.{pos}
use scalper_v.Domain.{Side}
use scalper_v.Decimal.{Decimal, int}
use scalper_v.Lifecycle.{SlType, FsmParams}
use scalper_v.Execution.{
  OrderRow, Closing, TradeLifecycleState, TradeRow, PositionStateRow, ExecutionRow, TradingEvent,
  Tables,
}
use scalper_v.Decimal.Columns.{
  quantity_column, quantity_or_null, money_column, fee_column, numeric_add, numeric_sub,
}

-- `insert_order` of a row whose key is still to be drawn.
unfoldable pub insert_order : OrderRow → Tables → ℕ × Tables
insert_order row t =
    let row' = record row {
      id = t.next_order;
      qty = quantity_column row.qty;
      price = quantity_column row.price;
    } in
    (t.next_order, record t { orders = row' ∷ t.orders; next_order = t.next_order + 1 })

abbrev pub new_trade :
    ℕ → ℕ → ℕ → ℕ → ℕ → Side → Decimal → Decimal → Decimal → ℕ → Option FsmParams → TradeRow
new_trade id bot signal order symbol side entry qty notional at meta = record {
  id = id;
  bot_id = bot;
  signal_id = signal;
  open_order_id = order;
  symbol = symbol;
  side = side;
  entry_price = quantity_column entry;
  qty = quantity_column qty;
  notional_usd = money_column notional;
  opened_at = at;
  fees_paid = none;
  closing = none;
  lifecycle_state = none;
  meta = meta;
}

unfoldable pub insert_trade :
    ℕ → ℕ → ℕ → ℕ → Side → Decimal → Decimal → Decimal → ℕ → Option FsmParams → Tables → ℕ × Tables
insert_trade bot signal order symbol side entry qty notional at meta t =
    let row = new_trade t.next_trade bot signal order symbol side entry qty notional at meta in
    (t.next_trade, record t { trades = row ∷ t.trades; next_trade = t.next_trade + 1 })

abbrev pub at_key : ℕ → ℕ → PositionStateRow → Bool
at_key bot symbol r = (r.bot_id == bot) && (r.symbol == symbol)

unfoldable pub find_position : ℕ → ℕ → List PositionStateRow → Option PositionStateRow
find_position bot symbol [] = none
find_position bot symbol (r ∷ rs) =
    let later = find_position bot symbol rs in if at_key bot symbol r then some r else later

unfoldable pub select_position_state : ℕ → ℕ → Tables → Option PositionStateRow
unfolding find_position
select_position_state bot symbol t = find_position bot symbol t.position_state

-- `none` is the violation of the primary key.
unfoldable pub insert_position_state : PositionStateRow → Tables → Option Tables
unfolding select_position_state
insert_position_state row t = elim (select_position_state row.bot_id row.symbol t) [
  | some old ↦ none
  | none ↦ some (record t {
    position_state =
        record row {
          entry_price = quantity_column row.entry_price;
          qty = quantity_column row.qty;
          remaining_qty = quantity_column row.remaining_qty;
          sl_price = quantity_or_null row.sl_price;
          tp_price = quantity_or_null row.tp_price;
        }
        ∷ t.position_state;
  })
]

unfoldable pub insert_trading_event : TradingEvent → Tables → Tables
insert_trading_event e t = record t { trading_events = e ∷ t.trading_events }

-- `UPDATE trades ... WHERE id = $n`
unfoldable pub update_trade : ℕ → (TradeRow → TradeRow) → List TradeRow → List TradeRow
update_trade id f [] = []
update_trade id f (r ∷ rs) = (if r.id == id then f r else r) ∷ update_trade id f rs

abbrev fees_or_kept : Option Decimal → Option Decimal → Option Decimal
fees_or_kept none kept = kept
fees_or_kept (some fees) kept = some (money_column fees)

abbrev pub closed_with : Closing → Option Decimal → TradeRow → TradeRow
closed_with c fees r = record r {
  closing = some (record c {
    exit_price = quantity_column c.exit_price;
    realized_pnl = money_column c.realized_pnl;
  });
  fees_paid = fees_or_kept fees r.fees_paid;
}

unfoldable pub update_trade_close : ℕ → Closing → Option Decimal → Tables → Tables
unfolding update_trade
update_trade_close id c fees t = record t { trades = update_trade id (closed_with c fees) t.trades }

abbrev pub in_state : TradeLifecycleState → TradeRow → TradeRow
in_state state r = record r { lifecycle_state = some state }

unfoldable pub update_trade_lifecycle_state : ℕ → TradeLifecycleState → Tables → Tables
unfolding update_trade
update_trade_lifecycle_state id state t = record t {
  trades = update_trade id (in_state state) t.trades;
}

abbrev fees_or_zero : Option Decimal → Decimal
fees_or_zero none = int (pos 0)
fees_or_zero (some fees) = fees

abbrev pub with_fee : Decimal → TradeRow → TradeRow
with_fee fee r = record r {
  fees_paid = some (money_column (numeric_add (fees_or_zero r.fees_paid) fee));
}

unfoldable pub update_trade_fees_incremental : ℕ → Decimal → Tables → Tables
unfolding update_trade
update_trade_fees_incremental id fee t = record t {
  trades = update_trade id (with_fee fee) t.trades;
}

unfoldable pub without_position : ℕ → ℕ → List PositionStateRow → List PositionStateRow
without_position bot symbol [] = []
without_position bot symbol (r ∷ rs) =
    let rest = without_position bot symbol rs in if at_key bot symbol r then rest else r ∷ rest

unfoldable pub delete_position_state : ℕ → ℕ → Tables → Tables
unfolding without_position
delete_position_state bot symbol t = record t {
  position_state = without_position bot symbol t.position_state;
}

abbrev sl_type_or_kept : Option SlType → Option SlType → Option SlType
sl_type_or_kept none kept = kept
sl_type_or_kept (some type) kept = some type

unfoldable pub filled_by : Decimal → Option SlType → ℕ → PositionStateRow → PositionStateRow
filled_by qty type at r = record r {
  remaining_qty = quantity_column (numeric_sub r.remaining_qty qty);
  sl_type = sl_type_or_kept type r.sl_type;
  updated_at = at;
}

unfoldable pub fill_positions :
    ℕ
    → ℕ
    → ℕ
    → (PositionStateRow → PositionStateRow)
    → List PositionStateRow
    → ℕ × List PositionStateRow
fill_positions bot symbol trade f [] = (0, [])
fill_positions bot symbol trade f (r ∷ rs) =
    let (count, rest) = fill_positions bot symbol trade f rs in
    if at_key bot symbol r && (r.trade_id == trade)
    then (count + 1, f r ∷ rest)
    else (count, r ∷ rest)

-- The count of the rows that were updated, and the tables.
unfoldable pub update_position_state_after_fill :
    ℕ → ℕ → ℕ → Decimal → Option SlType → ℕ → Tables → ℕ × Tables
unfolding fill_positions filled_by
update_position_state_after_fill bot symbol trade qty type at t =
    let (count, rows) = fill_positions bot symbol trade (filled_by qty type at) t.position_state in
    (count, record t { position_state = rows })

unfoldable pub insert_execution : ExecutionRow → Tables → Tables
insert_execution row t =
    let row' = record row {
      price = quantity_column row.price;
      qty = quantity_column row.qty;
      fee = fee_column row.fee;
    } in
    record t { executions = row' ∷ t.executions }

unfoldable pub find_order : ℕ → List OrderRow → Option ℕ
find_order exchange_id [] = none
find_order exchange_id (r ∷ rs) =
    let later = find_order exchange_id rs in
    if r.exchange_order_id == exchange_id then some r.id else later

unfoldable pub select_order_id_by_exchange_id : ℕ → Tables → Option ℕ
unfolding find_order
select_order_id_by_exchange_id exchange_id t = find_order exchange_id t.orders

unfoldable pub find_trade : (TradeRow → Bool) → List TradeRow → Option TradeRow
find_trade test [] = none
find_trade test (r ∷ rs) = let later = find_trade test rs in if test r then some r else later

abbrev pub opened_by : ℕ → TradeRow → Bool
opened_by order r = r.open_order_id == order

abbrev pub closed_by : ℕ → TradeRow → Bool
closed_by order r = elim r.closing [ none ↦ false | some c ↦ c.close_order_id == order ]

unfoldable pub select_trade_by_open_order_id : ℕ → Tables → Option TradeRow
unfolding find_trade
select_trade_by_open_order_id order t = find_trade (opened_by order) t.trades

unfoldable pub select_trade_by_close_order_id : ℕ → Tables → Option TradeRow
unfolding find_trade
select_trade_by_close_order_id order t = find_trade (closed_by order) t.trades

unfoldable pub select_open_order_id_by_trade_id : ℕ → Tables → Option ℕ
unfolding find_trade
select_open_order_id_by_trade_id id t = elim (find_trade (λ r. r.id == id) t.trades) [
  | none ↦ none
  | some r ↦ some r.open_order_id
]

-- The correlation and the exchange's key of an order.
unfoldable pub order_meta : ℕ → List OrderRow → Option (ℕ × ℕ)
order_meta id [] = none
order_meta id (r ∷ rs) =
    let later = order_meta id rs in
    if r.id == id then some (r.correlation_id, r.exchange_order_id) else later

unfoldable pub select_order_meta_by_id : ℕ → Tables → Option (ℕ × ℕ)
unfolding order_meta
select_order_meta_by_id id t = order_meta id t.orders

abbrev pub recent_open : ℕ → ℕ → ℕ → TradeRow → Bool
recent_open bot symbol since r =
    (r.bot_id == bot)
    && ((r.symbol == symbol)
        && (leb since r.opened_at && (elim r.closing [ none ↦ true | some c ↦ false ])))

unfoldable pub any_trade : (TradeRow → Bool) → List TradeRow → Bool
any_trade test [] = false
any_trade test (r ∷ rs) = test r || any_trade test rs

unfoldable pub select_recent_open_trade_exists : ℕ → ℕ → ℕ → Tables → Bool
unfolding any_trade
select_recent_open_trade_exists bot symbol since t =
    any_trade (recent_open bot symbol since) t.trades
