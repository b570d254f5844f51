-- ===== src/Paper/Fill.antt =====
-- The drain of a stop loss or take profit fill: `_drain_sl_tp_fill`, `_drain_partial_tp`,
-- `_drain_full_close` and what they call, of packages/exchange/paper/adapter.py.
use scalper_v.Base.{ℕ, true, Option, none, some, List, [], ◌∷◌, ◌++◌, if◌then◌else◌}
use scalper_v.Base.Int.{pos}
use scalper_v.Domain.{Side, buy, sell}
use scalper_v.Decimal.{Decimal, int, fixed, ◌+ᵈ◌, ◌-ᵈ◌}
use scalper_v.Paper.Price.{compute_fee, compute_realized_pnl}
use scalper_v.Paper.Types
use scalper_v.Paper.Types.{
  FillKind, sl, tp, TpslMode, full_mode, partial_mode, SlType, protective, trail, OpenPart, Entry,
  Fill, Closing, Tables, Emission, executed, positioned, terminated, Exchange, Error,
  invalid_operation, missing_key, Result, ok, err, put, synthetic, by_fill, fill_exec,
}
use scalper_v.Paper.Tables.{
  insert_paper_order, insert_paper_execution, close_paper_trade, update_paper_trade_partial,
  update_paper_position_partial, delete_paper_position,
}

abbrev pub close_side : Side → Side
close_side buy = sell
close_side sell = buy

-- `.get("realized_pnl", Decimal("0.0000"))`
abbrev pub prior_pnl : OpenPart → Decimal
prior_pnl p = elim p.realized_pnl [ none ↦ fixed (pos 0) 4 | some pnl ↦ pnl ]

abbrev pub fill_fee : Exchange → Fill → Decimal
fill_fee x f = compute_fee f.qty f.trigger_price x.fee_rate

-- `_insert_synthetic_close_order`, then `_insert_close_execution`: the order's key, and the tables.
unfoldable pub insert_close : Fill → OpenPart → Decimal → Tables → ℕ × Tables
unfolding insert_paper_order insert_paper_execution
insert_close f p fee t =
    let (order, t') =
      insert_paper_order f.symbol (close_side p.side) (synthetic f.kind) f.qty f.trigger_price
        f.triggered_at true t in
    let row : Types.ExecutionRow = record {
      order_id = order;
      trade_id = p.trade_id;
      symbol = f.symbol;
      side = close_side p.side;
      price = f.trigger_price;
      qty = f.qty;
      fee = fee;
      exec_type = fill_exec f.kind;
      executed_at = f.triggered_at;
    } in
    (order, insert_paper_execution row t')

-- `_emit_close_events`
unfoldable pub close_events :
    Fill → OpenPart → Decimal → Decimal → Option Side → Option Decimal → List Emission
close_events f p fee size side_after entry_after =
    executed (record {
      symbol = f.symbol;
      side = close_side p.side;
      price = f.trigger_price;
      qty = f.qty;
      fee = fee;
      executed_at = f.triggered_at;
    })
    ∷ positioned (record {
      symbol = f.symbol;
      side = side_after;
      size = size;
      entry_price = entry_after;
      occurred_at = f.triggered_at;
    })
    ∷ []

-- The position after a partial take profit that earned `pnl`.
unfoldable pub reduced : Fill → OpenPart → Decimal → Decimal → OpenPart
unfolding ◌+ᵈ◌ ◌-ᵈ◌
reduced f p fee pnl = record p {
  qty = p.qty -ᵈ f.qty;
  fees_paid = p.fees_paid +ᵈ fee;
  realized_pnl = some (prior_pnl p +ᵈ pnl);
  tp_hit = true;
}

-- The commit of a partial take profit, and its events.
unfoldable pub commit_partial : Fill → Entry → OpenPart → Decimal → Exchange → Exchange
unfolding reduced insert_close update_paper_trade_partial update_paper_position_partial close_events
commit_partial f e p pnl x =
    let fee = fill_fee x f in
    let p' = reduced f p fee pnl in
    let t = (insert_close f p fee x.tables).1 in
    let t' = update_paper_trade_partial p.trade_id p'.qty p'.fees_paid (prior_pnl p +ᵈ pnl) t in
    record x {
      tables = update_paper_position_partial f.symbol p'.qty true f.triggered_at t';
      active = put f.symbol (some (record e { opened = some p'; sl_type = some trail })) x.active;
      emitted = x.emitted ++ close_events f p fee p'.qty (some p.side) (some p.entry_price);
    }

-- `_drain_partial_tp`: the entry fee waits for the full close.
unfoldable pub drain_partial_tp : Fill → Entry → OpenPart → Exchange → Result Exchange
unfolding commit_partial
drain_partial_tp f e p x =
    elim (compute_realized_pnl p.side p.entry_price f.trigger_price f.qty (int (pos 0))
      (fill_fee x f)) [ none ↦ err invalid_operation | some pnl ↦ ok (commit_partial f e p pnl x) ]

terminal : Fill → Entry → Decimal → Emission
terminal f e total = terminated (record {
  symbol = f.symbol;
  exec_type = f.kind;
  sl_type_at_close = elim e.sl_type [ none ↦ protective | some t ↦ t ];
  tpsl_mode_at_close = e.tpsl_mode;
  realized_pnl = total;
})

-- The commit of a full close that earned `pnl` beside what partial fills had earned.
unfoldable pub commit_close : Fill → Entry → OpenPart → Decimal → Exchange → Exchange
unfolding insert_close close_paper_trade delete_paper_position close_events terminal ◌+ᵈ◌
commit_close f e p pnl x =
    let fee = fill_fee x f in
    let total = pnl +ᵈ prior_pnl p in
    let (order, t) = insert_close f p fee x.tables in
    let closing : Closing = record {
      exit_price = f.trigger_price;
      closed_at = f.triggered_at;
      close_reason = by_fill f.kind;
      close_order_id = order;
    } in
    record x {
      tables =
          delete_paper_position f.symbol
            (close_paper_trade p.trade_id total (p.fees_paid +ᵈ fee) closing t);
      active = put f.symbol none x.active;
      emitted =
          (x.emitted ++ close_events f p fee (int (pos 0)) none none)
          ++ (if x.has_callback then terminal f e total ∷ [] else []);
    }

-- `_drain_full_close`: the entry fee is taken off here.
unfoldable pub drain_full_close : Fill → Entry → OpenPart → Exchange → Result Exchange
unfolding commit_close
drain_full_close f e p x =
    elim (compute_realized_pnl p.side p.entry_price f.trigger_price f.qty p.entry_fee
      (fill_fee x f)) [ none ↦ err invalid_operation | some pnl ↦ ok (commit_close f e p pnl x) ]

-- `_drain_sl_tp_fill` on a position that is there.
unfoldable pub dispatch_fill :
    FillKind → TpslMode → Fill → Entry → OpenPart → Exchange → Result Exchange
unfolding drain_partial_tp drain_full_close
dispatch_fill tp partial_mode f e p x = drain_partial_tp f e p x
dispatch_fill tp full_mode f e p x = drain_full_close f e p x
dispatch_fill sl mode f e p x = drain_full_close f e p x

of_entry : Fill → Option Entry → Exchange → Result Exchange
unfolding dispatch_fill
of_entry f none x = err missing_key
of_entry f (some e) x = elim e.opened [
  | none ↦ err missing_key
  | some p ↦ dispatch_fill f.kind f.tpsl_mode f e p x
]

unfoldable pub drain_sl_tp_fill : Fill → Exchange → Result Exchange
unfolding of_entry
drain_sl_tp_fill f x = of_entry f (x.active f.symbol) x
