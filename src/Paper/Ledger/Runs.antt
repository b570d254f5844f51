-- ===== src/Paper/Ledger/Runs.antt =====
-- The rows of open trades over any sequence of calls and candles, and what a full close writes.
use scalper_v.Base.{ℕ, ◌≡◌, ◌≢◌, refl, ap, ◌∙◌, Option, none, some, List}
use scalper_v.Decimal.{Decimal, ◌+ᵈ◌}
use scalper_v.Decimal.Columns.{quantity_column, money_column, money_or_null}
use scalper_v.Paper.Tables.{with_close}
use scalper_v.Paper.Mirror.{position_of, position_of-delete_self, position_of-delete_ne}
use scalper_v.Paper.Types.{Tables, Closing, Entry, OpenPart, TradeRow, Fill, Exchange, by_fill}
use scalper_v.Paper.Fill.{fill_fee, prior_pnl, insert_close, commit_close}
use scalper_v.Paper.Candle.{cache}
use scalper_v.Paper.Orders.{opened_of}
use scalper_v.Paper.Stops.{cancel_order}
use scalper_v.Paper.Restart.{trade_of}
use scalper_v.Paper.Calls.{Call, after_all}
use scalper_v.Paper.Invariant.{Preserves}
use scalper_v.Paper.Invariant.Runs.{after_all-Inv}
use scalper_v.Paper.Ledger.{Entered, IsBooked, map_trade, trade_of-update_self, trade_of-update_ne}
use scalper_v.Paper.Ledger.Commits.{
  commit_partial-IsBooked, commit_close-IsBooked, commit_manual-IsBooked, commit_open-IsBooked,
  commit_stops-IsBooked,
}

-- The tables of trades and the positions in memory are all that the books are about.
IsBooked-same :
    (x y : Exchange)
    → y.active ≡ x.active
    → y.tables.trades ≡ x.tables.trades
    → y.tables.next_trade ≡ x.tables.next_trade
    → IsBooked x
    → IsBooked y
IsBooked-same x y a t n m = record {
  entered = λ j p o. rw t (m.entered j p (rw (← a) o));
  drawn = λ j p o. rw n (m.drawn j p (rw (← a) o));
  apart = λ j k p q o u. m.apart j k p q (rw (← a) o) (rw (← a) u);
}

Preserves-IsBooked : Preserves IsBooked
unfolding cache cancel_order
Preserves-IsBooked = record {
  queued = λ fs x m. IsBooked-same x (record x { pending = fs }) refl refl refl m;
  cached = λ c x m. IsBooked-same x (cache c x) refl refl refl m;
  cancelled = λ id x m. IsBooked-same x (cancel_order id x) refl refl refl m;
  partial = commit_partial-IsBooked;
  closed = commit_close-IsBooked;
  opened = λ k notional x flat m. commit_open-IsBooked k notional x m;
  manual = commit_manual-IsBooked;
  stopped = commit_stops-IsBooked;
}

-- If every open position has its row in the table of trades (not closed, with the side of memory, and
-- its entry price, quantity, fees and profit so far rounded to the scale of their columns, under a key
-- already drawn), and no two symbols share a trade, this holds after any sequence of market orders,
-- stop requests, cancellations, live candles and replayed candles, whether these succeed or raise.
pub after_all-IsBooked : (cs : List Call) (x : Exchange) → IsBooked x → IsBooked (after_all cs x)
after_all-IsBooked = after_all-Inv IsBooked Preserves-IsBooked

-- A row that a full close has written, against the row before and the position in memory.
pub record IsSettled (f : Fill) (p : OpenPart) (pnl fee : Decimal) (t t' : TradeRow) : Type 0 where
  pub was_open : t.closing ≡ none
  pub closing : Closing
  pub is_closed : t'.closing ≡ some closing
  pub exit_price : closing.exit_price ≡ quantity_column f.trigger_price
  pub close_reason : closing.close_reason ≡ by_fill f.kind
  pub earned_before : t.realized_pnl ≡ money_or_null p.realized_pnl
  pub realized_pnl : t'.realized_pnl ≡ some (money_column (pnl +ᵈ prior_pnl p))
  pub fees_before : t.fees_paid ≡ money_column p.fees_paid
  pub fees_paid : t'.fees_paid ≡ money_column (p.fees_paid +ᵈ fee)
  pub qty : t'.qty ≡ t.qty
  pub entry_price : t'.entry_price ≡ t.entry_price

-- The tables after a full close, against those before.
pub record Settles (f : Fill) (p : OpenPart) (pnl fee : Decimal) (before after : Tables)
    : Type 0 where
  pub row : TradeRow
  pub row' : TradeRow
  pub was : trade_of p.trade_id before.trades ≡ some row
  pub is_now : trade_of p.trade_id after.trades ≡ some row'
  pub settled : IsSettled f p pnl fee row row'
  pub others : (j : ℕ) → j ≢ p.trade_id → trade_of j after.trades ≡ trade_of j before.trades
  pub no_position : position_of f.symbol after.positions ≡ none
  pub other_positions :
      (j : ℕ) → j ≢ f.symbol → position_of j after.positions ≡ position_of j before.positions

IsSettled-row :
    (f : Fill) (p : OpenPart) (pnl fee : Decimal) (c : Closing) (row : Option TradeRow)
    → c.exit_price ≡ quantity_column f.trigger_price
    → c.close_reason ≡ by_fill f.kind
    → Entered p row
    → (t : TradeRow) × (row ≡ some t)
      × (map_trade (with_close (pnl +ᵈ prior_pnl p) (p.fees_paid +ᵈ fee) c) row
          ≡ some (with_close (pnl +ᵈ prior_pnl p) (p.fees_paid +ᵈ fee) c t))
      × IsSettled f p pnl fee t (with_close (pnl +ᵈ prior_pnl p) (p.fees_paid +ᵈ fee) c t)
IsSettled-row f p pnl fee c none exit reason h = absurd h
IsSettled-row f p pnl fee c (some t) exit reason h = (
  t,
  refl,
  refl,
  record {
    was_open = h.closing;
    closing = c;
    is_closed = refl;
    exit_price = exit;
    close_reason = reason;
    earned_before = h.realized_pnl;
    realized_pnl = refl;
    fees_before = h.fees_paid;
    fees_paid = refl;
    qty = refl;
    entry_price = refl;
  },
)

-- If the open positions have their rows in the table of trades, a full close by a stop loss or a take
-- profit closes the open row of its position at the trigger price, and leaves there the fees of the
-- position and of the close, and the profit of the close and of the partial closes, each summed in
-- memory and rounded to four decimals once; the quantity and the entry price of the row stay. Every
-- other trade keeps its row, the row of the symbol leaves the positions table, and all others stay.
pub commit_close-Settles :
    (f : Fill) (e : Entry) (p : OpenPart) (pnl : Decimal) (x : Exchange)
    → x.active f.symbol ≡ some e
    → e.opened ≡ some p
    → IsBooked x
    → Settles f p pnl (fill_fee x f) x.tables (commit_close f e p pnl x).tables
unfolding commit_close
commit_close-Settles f e p pnl x there held m =
    let closing : Closing = record {
      exit_price = quantity_column f.trigger_price;
      closed_at = f.triggered_at;
      close_reason = by_fill f.kind;
      close_order_id = (insert_close f p (fill_fee x f) x.tables).0;
    } in
    let (t, before, after, settled) =
      IsSettled-row f p pnl (fill_fee x f) closing (trade_of p.trade_id x.tables.trades) refl refl
        (m.entered f.symbol p (ap opened_of there ∙ held)) in
    record {
      row = t;
      row' = with_close (pnl +ᵈ prior_pnl p) (p.fees_paid +ᵈ fill_fee x f) closing t;
      was = before;
      is_now = trade_of-update_self p.trade_id _ (λ r. refl) x.tables.trades ∙ after;
      settled = settled;
      others = λ j n. trade_of-update_ne p.trade_id _ (λ r. refl) j x.tables.trades n;
      no_position = position_of-delete_self f.symbol x.tables.positions;
      other_positions = λ j n. position_of-delete_ne j f.symbol x.tables.positions n;
    }
