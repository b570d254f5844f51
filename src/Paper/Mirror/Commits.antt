-- ===== src/Paper/Mirror/Commits.antt =====
-- Each commit of the exchange to memory and tables keeps the two in step.
use scalper_v.Base.{ℕ, ◌≡◌, refl, ◌≢◌, subst, true, Option, none, some, List, ◌∷◌, arith}
use scalper_v.Decimal.{Decimal}
use scalper_v.Decimal.Columns.{quantity_column, quantity_or_null}
use scalper_v.Paper.Types.{trail, Entry, OpenPart, PositionRow, Exchange, Fill}
use scalper_v.Paper.Tables.{with_sl_tp, with_remaining}
use scalper_v.Paper.Fill.{commit_partial, commit_close, reduced, fill_fee}
use scalper_v.Paper.Orders.{Ticket, position_row, opened_entry, commit_open, commit_manual}
use scalper_v.Paper.Stops.{StopRequest, with_stops, entry_or_new, commit_stops}
use scalper_v.Paper.Mirror.{
  position_of, Matches, Mirrors, stored_part, stored_opened, stored_entry, stored, IsMirrored,
  map_row, position_of-update_self, position_of-update_ne, position_of-delete_self,
  position_of-delete_ne, at_one_symbol, put_self, put_ne,
}

-- What a mirrored exchange says of an open position.
row_agrees :
    (x : Exchange) (symbol : ℕ) (e : Entry) (p : OpenPart)
    → x.active symbol ≡ some e
    → e.opened ≡ some p
    → IsMirrored x
    → Matches (stored_entry e) (some (stored_part p)) (position_of symbol x.tables.positions)
row_agrees x symbol e p there held m =
    subst (λ o. Matches (stored_entry e) (stored_opened o) (position_of symbol x.tables.positions))
      held
      (subst (λ a. Mirrors (stored a) (position_of symbol x.tables.positions)) there (m symbol))

reduced-Matches :
    (f : Fill) (e : Entry) (p : OpenPart) (fee pnl : Decimal) (row : Option PositionRow)
    → Matches (stored_entry e) (some (stored_part p)) row
    → let p' = reduced f p fee pnl in
      Mirrors
        (stored (some (record e { opened = some p'; sl_type = some trail })))
        (map_row (with_remaining p'.qty true f.triggered_at) row)
unfolding reduced
reduced-Matches f e p fee pnl none h = absurd h
reduced-Matches f e p fee pnl (some r) h = record {
  trade_id = h.trade_id;
  side = h.side;
  entry_price = h.entry_price;
  qty = refl;
  tp_hit = refl;
  sl_price = h.sl_price;
  tp_price = h.tp_price;
}

pub commit_partial-IsMirrored :
    (f : Fill) (e : Entry) (p : OpenPart) (pnl : Decimal) (x : Exchange)
    → x.active f.symbol ≡ some e
    → e.opened ≡ some p
    → IsMirrored x
    → IsMirrored (commit_partial f e p pnl x)
unfolding commit_partial
commit_partial-IsMirrored f e p pnl x there held m =
    at_one_symbol x (commit_partial f e p pnl x) f.symbol
      (rw
        (
          put_self,
          position_of-update_self f.symbol
              (with_remaining (reduced f p (fill_fee x f) pnl).qty true f.triggered_at) (λ r. refl)
              x.tables.positions,
        )
        (reduced-Matches f e p (fill_fee x f) pnl _ (row_agrees x f.symbol e p there held m)))
      (λ j h. put_ne j f.symbol _ x.active h)
      (λ j h. position_of-update_ne f.symbol _ (λ r. refl) j x.tables.positions h) m

-- A close empties both sides.
pub commit_close-IsMirrored :
    (f : Fill) (e : Entry) (p : OpenPart) (pnl : Decimal) (x : Exchange)
    → IsMirrored x
    → IsMirrored (commit_close f e p pnl x)
unfolding commit_close
commit_close-IsMirrored f e p pnl x m =
    at_one_symbol x (commit_close f e p pnl x) f.symbol (rw (put_self, position_of-delete_self) tt)
      (λ j h. put_ne j f.symbol _ x.active h)
      (λ j h. position_of-delete_ne j f.symbol x.tables.positions h) m

pub commit_manual-IsMirrored :
    (k : Ticket) (p : OpenPart) (pnl : Decimal) (x : Exchange)
    → IsMirrored x
    → IsMirrored (commit_manual k p pnl x)
unfolding commit_manual
commit_manual-IsMirrored k p pnl x m =
    at_one_symbol x (commit_manual k p pnl x) k.symbol (rw (put_self, position_of-delete_self) tt)
      (λ j h. put_ne j k.symbol _ x.active h)
      (λ j h. position_of-delete_ne j k.symbol x.tables.positions h) m

open_row_ne :
    (j : ℕ) (r : PositionRow) (rs : List PositionRow)
    → j ≢ r.symbol
    → position_of j (r ∷ rs) ≡ position_of j rs
unfolding position_of
open_row_ne j r rs h = ground arith

-- The row as `insert_paper_position` writes it.
stored_row : PositionRow → PositionRow
stored_row r = record r {
  entry_price = quantity_column r.entry_price;
  qty = quantity_column r.qty;
  remaining_qty = quantity_column r.remaining_qty;
  sl_price = quantity_or_null r.sl_price;
  tp_price = quantity_or_null r.tp_price;
}

opened_row :
    (k : Ticket) (notional : Decimal) (x : Exchange)
    → position_of k.symbol (commit_open k notional x).1.tables.positions
      ≡ some (stored_row (position_row k (commit_open k notional x).0))
unfolding commit_open position_of position_row stored_row
opened_row k notional x = ground arith

opened-Matches :
    (k : Ticket) (trade : ℕ)
    → Mirrors (stored (some (opened_entry k trade))) (some (stored_row (position_row k trade)))
unfolding opened_entry position_row stored_row
opened-Matches k trade = ground arith

pub commit_open-IsMirrored :
    (k : Ticket) (notional : Decimal) (x : Exchange)
    → IsMirrored x
    → IsMirrored (commit_open k notional x).1
unfolding commit_open
commit_open-IsMirrored k notional x m =
    at_one_symbol x (commit_open k notional x).1 k.symbol
      (rw (opened_row k notional x, put_self) (opened-Matches k (commit_open k notional x).0))
      (λ j h. put_ne j k.symbol _ x.active h) (λ j h. open_row_ne j _ x.tables.positions h) m

stops-Matches :
    (r : StopRequest) (e : Entry) (now : ℕ) (o : Option OpenPart) (row : Option PositionRow)
    → Matches (stored_entry e) (stored_opened o) row
    → Matches
        (stored_entry (with_stops r e))
        (stored_opened o)
        (map_row (with_sl_tp r.sl_price r.tp_price now) row)
unfolding with_stops
stops-Matches r e now none none h = tt
stops-Matches r e now none (some q) h = absurd h
stops-Matches r e now (some p) none h = absurd h
stops-Matches r e now (some p) (some q) h = record {
  trade_id = h.trade_id;
  side = h.side;
  entry_price = h.entry_price;
  qty = h.qty;
  tp_hit = h.tp_hit;
  sl_price = refl;
  tp_price = refl;
}

stops-Mirrors :
    (r : StopRequest) (now : ℕ) (a : Option Entry) (row : Option PositionRow)
    → Mirrors (stored a) row
    → Mirrors
        (stored (some (with_stops r (entry_or_new a))))
        (map_row (with_sl_tp r.sl_price r.tp_price now) row)
unfolding with_stops entry_or_new
stops-Mirrors r now none none h = tt
stops-Mirrors r now none (some q) h = absurd h
stops-Mirrors r now (some e) row h = stops-Matches r e now e.opened row h

pub commit_stops-IsMirrored :
    (symbol : ℕ) (r : StopRequest) (now : ℕ) (x : Exchange)
    → IsMirrored x
    → IsMirrored (commit_stops symbol r now x)
unfolding commit_stops
commit_stops-IsMirrored symbol r now x m =
    at_one_symbol x (commit_stops symbol r now x) symbol
      (rw
        (
          put_self,
          position_of-update_self symbol (with_sl_tp r.sl_price r.tp_price now) (λ r. refl)
              x.tables.positions,
        )
        (stops-Mirrors r now (x.active symbol) _ (m symbol)))
      (λ j h. put_ne j symbol _ x.active h)
      (λ j h. position_of-update_ne symbol _ (λ r. refl) j x.tables.positions h) m
