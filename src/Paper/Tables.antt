-- ===== src/Paper/Tables.antt =====
-- packages/exchange/paper/persistence.py: the statements that write the paper_* tables of one bot,
-- and the sum over its closed trades. A key is drawn from the table's counter, and a value is rounded
-- to the scale that its column has in migrations/versions/0008_paper_tables.py.
use scalper_v.Base.{ℕ, ◌+◌, Bool, Option, none, some, List, [], ◌∷◌, ◌==◌, if◌then◌else◌}
use scalper_v.Base.Int.{pos}
use scalper_v.Domain.{Side}
use scalper_v.Decimal.{Decimal, fixed}
use scalper_v.Decimal.Columns.{
  numeric_add, quantity_column, money_column, fee_column, quantity_or_null,
}
use scalper_v.Paper.Types.{
  OrderType, filled, cancelled, OrderRow, Closing, TradeRow, ExecutionRow, PositionRow, Tables,
}

-- `insert_paper_order`; every caller inserts a filled order.
unfoldable pub insert_paper_order :
    ℕ → Side → OrderType → Decimal → Decimal → ℕ → Bool → Tables → ℕ × Tables
insert_paper_order symbol side type qty price at idem t =
    let row : OrderRow = record {
      id = t.next_order;
      symbol = symbol;
      side = side;
      order_type = type;
      qty = quantity_column qty;
      price = quantity_column price;
      status = filled;
      requested_at = at;
      is_idempotent = idem;
    } in
    (t.next_order, record t { orders = row ∷ t.orders; next_order = t.next_order + 1 })

unfoldable pub insert_paper_trade :
    ℕ → ℕ → Side → Decimal → Decimal → Decimal → Decimal → ℕ → Tables → ℕ × Tables
insert_paper_trade order symbol side entry qty notional fees at t =
    let row : TradeRow = record {
      id = t.next_trade;
      open_order_id = order;
      symbol = symbol;
      side = side;
      entry_price = quantity_column entry;
      qty = quantity_column qty;
      notional_usd = money_column notional;
      fees_paid = money_column fees;
      realized_pnl = none;
      opened_at = at;
      closing = none;
    } in
    (t.next_trade, record t { trades = row ∷ t.trades; next_trade = t.next_trade + 1 })

unfoldable pub insert_paper_execution : ExecutionRow → Tables → Tables
insert_paper_execution row t =
    let row' = record row {
      price = quantity_column row.price;
      qty = quantity_column row.qty;
      fee = fee_column row.fee;
    } in
    record t { executions = row' ∷ t.executions }

unfoldable pub insert_paper_position : PositionRow → Tables → Tables
insert_paper_position row t =
    let row' = record row {
      entry_price = quantity_column row.entry_price;
      qty = quantity_column row.qty;
      remaining_qty = quantity_column row.remaining_qty;
      sl_price = quantity_or_null row.sl_price;
      tp_price = quantity_or_null row.tp_price;
    } in
    record t { positions = row' ∷ t.positions }

-- `UPDATE paper_trades ... WHERE id = $n`
unfoldable pub update_trades : ℕ → (TradeRow → TradeRow) → List TradeRow → List TradeRow
update_trades id f [] = []
update_trades id f (r ∷ rs) = (if r.id == id then f r else r) ∷ update_trades id f rs

-- The columns that each update sets.
abbrev pub with_close : Decimal → Decimal → Closing → TradeRow → TradeRow
with_close pnl fees closing r = record r {
  realized_pnl = some (money_column pnl);
  fees_paid = money_column fees;
  closing = some closing;
}

abbrev pub with_partial : Decimal → Decimal → Decimal → TradeRow → TradeRow
with_partial qty fees pnl r = record r {
  qty = quantity_column qty;
  fees_paid = money_column fees;
  realized_pnl = some (money_column pnl);
}

unfoldable pub close_paper_trade : ℕ → Decimal → Decimal → Closing → Tables → Tables
unfolding update_trades
close_paper_trade id pnl fees closing t =
    let stored = record closing { exit_price = quantity_column closing.exit_price } in
    record t { trades = update_trades id (with_close pnl fees stored) t.trades }

unfoldable pub update_paper_trade_partial : ℕ → Decimal → Decimal → Decimal → Tables → Tables
unfolding update_trades
update_paper_trade_partial id qty fees pnl t = record t {
  trades = update_trades id (with_partial qty fees pnl) t.trades;
}

-- `UPDATE paper_positions ... WHERE bot_id = $n AND symbol = $m`
unfoldable pub update_positions :
    ℕ → (PositionRow → PositionRow) → List PositionRow → List PositionRow
update_positions symbol f [] = []
update_positions symbol f (r ∷ rs) =
    (if r.symbol == symbol then f r else r) ∷ update_positions symbol f rs

-- The columns that each update sets.
abbrev pub with_sl_tp : Option Decimal → Option Decimal → ℕ → PositionRow → PositionRow
with_sl_tp sl_price tp_price at r = record r {
  sl_price = quantity_or_null sl_price;
  tp_price = quantity_or_null tp_price;
  updated_at = at;
}

abbrev pub with_remaining : Decimal → Bool → ℕ → PositionRow → PositionRow
with_remaining remaining tp_hit at r = record r {
  remaining_qty = quantity_column remaining;
  tp_hit = tp_hit;
  updated_at = at;
}

unfoldable pub update_paper_position_sl_tp :
    ℕ → Option Decimal → Option Decimal → ℕ → Tables → Tables
unfolding update_positions
update_paper_position_sl_tp symbol sl_price tp_price at t = record t {
  positions = update_positions symbol (with_sl_tp sl_price tp_price at) t.positions;
}

unfoldable pub update_paper_position_partial : ℕ → Decimal → Bool → ℕ → Tables → Tables
unfolding update_positions
update_paper_position_partial symbol remaining tp_hit at t = record t {
  positions = update_positions symbol (with_remaining remaining tp_hit at) t.positions;
}

unfoldable pub delete_positions : ℕ → List PositionRow → List PositionRow
delete_positions symbol [] = []
delete_positions symbol (r ∷ rs) =
    if r.symbol == symbol then delete_positions symbol rs else r ∷ delete_positions symbol rs

unfoldable pub delete_paper_position : ℕ → Tables → Tables
unfolding delete_positions
delete_paper_position symbol t = record t { positions = delete_positions symbol t.positions }

cancel_orders : ℕ → List OrderRow → List OrderRow
cancel_orders id [] = []
cancel_orders id (r ∷ rs) =
    (if r.id == id then record r { status = cancelled } else r) ∷ cancel_orders id rs

unfoldable pub update_paper_order_cancelled : ℕ → Tables → Tables
unfolding cancel_orders
update_paper_order_cancelled id t = record t { orders = cancel_orders id t.orders }

-- The result of a trade counts once it is closed.
closed_pnl : TradeRow → Decimal
closed_pnl r = elim r.closing [
  | none ↦ fixed (pos 0) 4
  | some c ↦ elim r.realized_pnl [ none ↦ fixed (pos 0) 4 | some pnl ↦ pnl ]
]

-- `sum_paper_trades_realized_pnl`
unfoldable pub sum_paper_trades_realized_pnl : List TradeRow → Decimal
unfolding closed_pnl
sum_paper_trades_realized_pnl [] = fixed (pos 0) 4
sum_paper_trades_realized_pnl (r ∷ rs) =
    numeric_add (sum_paper_trades_realized_pnl rs) (closed_pnl r)
