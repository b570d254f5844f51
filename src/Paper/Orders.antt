-- ===== src/Paper/Orders.antt =====
-- Orders and stops of the paper exchange: `place_market_order`, `_persist_open`, `_persist_close`,
-- `set_trading_stop`, `cancel_order` and the reads, of packages/exchange/paper/adapter.py.
use scalper_v.Base.{ℕ, Bool, true, false, Option, none, some, [], ◌∷◌, ◌++◌, if◌then◌else◌}
use scalper_v.Base.Int.{pos}
use scalper_v.Domain.{Side}
use scalper_v.Decimal.{Decimal, int, ◌+ᵈ◌, ◌*ᵈ◌}
use scalper_v.Decimal.Division.{quantize}
use scalper_v.Paper.Price.{compute_fee, compute_slippage, fill_price_of, compute_realized_pnl}
use scalper_v.Paper.Types
use scalper_v.Paper.Types.{
  TpslMode, full_mode, SlType, protective, be, trail, Candle, OpenPart, Entry, Closing, Tables,
  Emission, executed, positioned, trade_closed, Exchange, Error, position_already_open,
  no_position_to_close, no_observed_price, invalid_operation, missing_key, trail_not_settable,
  Result, ok, err, put, market, manual, open_exec, close_exec,
}
use scalper_v.Paper.Tables.{
  insert_paper_order, insert_paper_trade, insert_paper_execution, insert_paper_position,
  close_paper_trade, delete_paper_position,
}
use scalper_v.Paper.Fill.{prior_pnl}

-- What `place_market_order` works out before it persists.
pub record Ticket : Type 0 where
  pub symbol : ℕ
  pub side : Side
  pub qty : Decimal
  pub price : Decimal
  pub fee : Decimal
  pub placed_at : ℕ

-- The open position of an entry, if its side is set.
abbrev pub opened_of : Option Entry → Option OpenPart
opened_of none = none
opened_of (some e) = e.opened

abbrev execution_of : Ticket → Emission
execution_of k = executed (record {
  symbol = k.symbol;
  side = k.side;
  price = k.price;
  qty = k.qty;
  fee = k.fee;
  executed_at = k.placed_at;
})

execution_row : Ticket → ℕ → ℕ → Types.ExecType → Types.ExecutionRow
execution_row k order trade type = record {
  order_id = order;
  trade_id = trade;
  symbol = k.symbol;
  side = k.side;
  price = k.price;
  qty = k.qty;
  fee = k.fee;
  exec_type = type;
  executed_at = k.placed_at;
}

unfoldable pub position_row : Ticket → ℕ → Types.PositionRow
position_row k trade = record {
  symbol = k.symbol;
  trade_id = trade;
  side = k.side;
  entry_price = k.price;
  qty = k.qty;
  remaining_qty = k.qty;
  sl_price = none;
  tp_price = none;
  tp_hit = false;
  updated_at = k.placed_at;
}

-- The chain of inserts of an opening, with the key of the trade.
unfoldable pub open_rows : Ticket → Decimal → Tables → ℕ × Tables
unfolding insert_paper_order insert_paper_trade insert_paper_execution insert_paper_position
    execution_row position_row
open_rows k notional t =
    let (order, t1) = insert_paper_order k.symbol k.side market k.qty k.price k.placed_at false t in
    let (trade, t2) =
      insert_paper_trade order k.symbol k.side k.price k.qty notional k.fee k.placed_at t1 in
    let t3 = insert_paper_execution (execution_row k order trade open_exec) t2 in
    (trade, insert_paper_position (position_row k trade) t3)

unfoldable pub opened_entry : Ticket → ℕ → Entry
opened_entry k trade = record {
  opened = some (record {
    trade_id = trade;
    side = k.side;
    qty = k.qty;
    entry_price = k.price;
    entry_fee = k.fee;
    fees_paid = k.fee;
    realized_pnl = none;
    tp_hit = false;
  });
  sl_price = none;
  tp_price = none;
  tp_size = none;
  tpsl_mode = full_mode;
  sl_type = none;
}

unfoldable pub commit_open : Ticket → Decimal → Exchange → ℕ × Exchange
unfolding open_rows opened_entry
commit_open k notional x =
    let (trade, t) = open_rows k notional x.tables in
    let held = positioned (record {
      symbol = k.symbol;
      side = some k.side;
      size = k.qty;
      entry_price = some k.price;
      occurred_at = k.placed_at;
    }) in
    (
      trade,
      record x {
        tables = t;
        active = put k.symbol (some (opened_entry k trade)) x.active;
        emitted = x.emitted ++ (execution_of k ∷ held ∷ []);
      },
    )

abbrev Placed : Type 0
Placed = Result (Option ℕ × Exchange)

-- `_persist_open`: at most one position in a symbol.
unfoldable pub persist_open : Ticket → Option OpenPart → Exchange → Placed
unfolding commit_open ◌*ᵈ◌ quantize
persist_open k (some p) x = err position_already_open
persist_open k none x = elim (quantize (k.qty *ᵈ k.price) 4) [
  | none ↦ err invalid_operation
  | some notional ↦ let (trade, x') = commit_open k notional x in ok (some trade, x')
]

-- The commit of a close by order, which ends the whole position.
unfoldable pub commit_manual : Ticket → OpenPart → Decimal → Exchange → Exchange
unfolding insert_paper_order insert_paper_execution close_paper_trade delete_paper_position
    execution_row ◌+ᵈ◌
commit_manual k p pnl x =
    let total = pnl +ᵈ prior_pnl p in
    let (order, t1) =
      insert_paper_order k.symbol k.side market k.qty k.price k.placed_at false x.tables in
    let t2 = insert_paper_execution (execution_row k order p.trade_id close_exec) t1 in
    let closing : Closing = record {
      exit_price = k.price;
      closed_at = k.placed_at;
      close_reason = manual;
      close_order_id = order;
    } in
    let t3 = close_paper_trade p.trade_id total (p.fees_paid +ᵈ k.fee) closing t2 in
    let flat = positioned (record {
      symbol = k.symbol;
      side = none;
      size = int (pos 0);
      entry_price = none;
      occurred_at = k.placed_at;
    }) in
    record x {
      tables = delete_paper_position k.symbol t3;
      active = put k.symbol none x.active;
      emitted =
          (x.emitted ++ (execution_of k ∷ flat ∷ []))
          ++ (if x.emit_parent_lifecycle then trade_closed p.trade_id ∷ [] else []);
    }

-- `_persist_close`
unfoldable pub persist_close : Ticket → Option OpenPart → Exchange → Placed
unfolding commit_manual compute_realized_pnl
persist_close k none x = err no_position_to_close
persist_close k (some p) x =
    elim (compute_realized_pnl p.side p.entry_price k.price p.qty p.entry_fee k.fee) [
      | none ↦ err invalid_operation
      | some pnl ↦ ok (none, commit_manual k p pnl x)
    ]

unfoldable pub ticket : Exchange → ℕ → Side → Decimal → ℕ → Decimal → Candle → Ticket
unfolding compute_slippage fill_price_of compute_fee
ticket x symbol side qty now last c =
    let slip = compute_slippage x.slippage_model last qty c.high c.low in
    let price = fill_price_of side last slip in
    record {
      symbol = symbol;
      side = side;
      qty = qty;
      price = price;
      fee = compute_fee qty price x.fee_rate;
      placed_at = now;
    }

unfoldable pub route : Bool → Ticket → Exchange → Placed
unfolding persist_open persist_close
route true k x = persist_close k (opened_of (x.active k.symbol)) x
route false k x = persist_open k (opened_of (x.active k.symbol)) x

unfoldable pub priced :
    ℕ → Side → Decimal → Bool → ℕ → Option Decimal → Option Candle → Exchange → Placed
unfolding ticket route
priced symbol side qty reduce_only now none c x = err no_observed_price
priced symbol side qty reduce_only now (some last) none x = err missing_key
priced symbol side qty reduce_only now (some last) (some c) x =
    route reduce_only (ticket x symbol side qty now last c) x

-- `place_market_order`, with the key of the paper trade that it opens.
unfoldable pub place_market_order : ℕ → Side → Decimal → Bool → ℕ → Exchange → Placed
unfolding priced
place_market_order symbol side qty reduce_only now x =
    priced symbol side qty reduce_only now (x.last_price symbol) (x.last_candle symbol) x
