-- ===== src/Paper/Ledger/Commits.antt =====
-- Each commit of the exchange keeps the rows of open trades in step with memory.
use scalper_v.Base.{
  some-injective, ℕ, ◌<◌, ◌≡◌, refl, sym, ap, subst, ◌∙◌, arith, false, Option, none, some, List,
  ◌∷◌,
}
use scalper_v.Decimal.{Decimal, ◌+ᵈ◌}
use scalper_v.Paper.Types.{trail, Entry, OpenPart, TradeRow, Fill, Exchange, put}
use scalper_v.Paper.Tables.{update_trades, with_partial}
use scalper_v.Paper.Fill.{prior_pnl, reduced, fill_fee, commit_partial, commit_close}
use scalper_v.Paper.Orders.{Ticket, opened_of, opened_entry, commit_open, commit_manual}
use scalper_v.Paper.Stops.{StopRequest, entry_or_new, with_stops, commit_stops}
use scalper_v.Paper.Restart.{trade_of}
use scalper_v.Paper.Mirror.{put_self, put_ne}
use scalper_v.Paper.Ledger.{
  Entered, Opened, IsBooked, map_trade, trade_of-update_self, trade_of-update_ne, IsBooked-at,
}

opened_put :
    (s : ℕ) (e : Option Entry) (d : ℕ → Option Entry) → opened_of (put s e d s) ≡ opened_of e
opened_put s e d = ap opened_of (put_self s e d)

-- A close empties the symbol, and closes the row of its trade only.
module _ (x y : Exchange) (s : ℕ) (p : OpenPart) (f : TradeRow → TradeRow)
    (keeps : (t : TradeRow) → (f t).id ≡ t.id) (memory : y.active ≡ put s none x.active)
    (trades : y.tables.trades ≡ update_trades p.trade_id f x.tables.trades)
    (next : y.tables.next_trade ≡ x.tables.next_trade) (there : Opened x s p)
    (before : IsBooked x) where
  empty : (q : OpenPart) → Opened y s q → ⊥
  empty q o = cc (o, ap (λ d. opened_of (d s)) memory, opened_put s none x.active)

  closed-IsBooked : IsBooked y
  closed-IsBooked =
      IsBooked-at x y s (λ j n. ap (λ d. d j) memory ∙ put_ne j s none x.active n)
        (omega (arith, next)) (λ q o. absurd (empty q o)) (λ q o. absurd (empty q o))
        (λ q o. absurd (empty q o))
        (λ j q n o.
          ap (trade_of q.trade_id) trades
          ∙ trade_of-update_ne p.trade_id f keeps q.trade_id x.tables.trades
              (λ same. n (before.apart j s q p o there same)))
        before

-- The open part of an entry that stands at a symbol.
opened_there :
    (x : Exchange) (s : ℕ) (e : Entry) (p : OpenPart)
    → x.active s ≡ some e
    → e.opened ≡ some p
    → Opened x s p
opened_there x s e p there held = ap opened_of there ∙ held

pub commit_close-IsBooked :
    (f : Fill) (e : Entry) (p : OpenPart) (pnl : Decimal) (x : Exchange)
    → x.active f.symbol ≡ some e
    → e.opened ≡ some p
    → IsBooked x
    → IsBooked (commit_close f e p pnl x)
unfolding commit_close
commit_close-IsBooked f e p pnl x there held m =
    closed-IsBooked x (commit_close f e p pnl x) f.symbol p _ (λ t. refl) refl refl refl
      (opened_there x f.symbol e p there held) m

pub commit_manual-IsBooked :
    (k : Ticket) (p : OpenPart) (pnl : Decimal) (x : Exchange)
    → Opened x k.symbol p
    → IsBooked x
    → IsBooked (commit_manual k p pnl x)
unfolding commit_manual
commit_manual-IsBooked k p pnl x there m =
    closed-IsBooked x (commit_manual k p pnl x) k.symbol p _ (λ t. refl) refl refl refl there m

reduced-Entered :
    (f : Fill) (p : OpenPart) (fee pnl : Decimal) (row : Option TradeRow)
    → Entered p row
    → let p' = reduced f p fee pnl in
      Entered p' (map_trade (with_partial p'.qty p'.fees_paid (prior_pnl p +ᵈ pnl)) row)
unfolding reduced
reduced-Entered f p fee pnl none h = absurd h
reduced-Entered f p fee pnl (some t) h = record {
  closing = h.closing;
  side = h.side;
  entry_price = h.entry_price;
  qty = refl;
  fees_paid = refl;
  realized_pnl = refl;
}

pub commit_partial-IsBooked :
    (f : Fill) (e : Entry) (p : OpenPart) (pnl : Decimal) (x : Exchange)
    → x.active f.symbol ≡ some e
    → e.opened ≡ some p
    → IsBooked x
    → IsBooked (commit_partial f e p pnl x)
unfolding commit_partial reduced
commit_partial-IsBooked f e p pnl x there held m =
    let s = f.symbol in
    let y = commit_partial f e p pnl x in
    let o = opened_there x s e p there held in
    let p' = reduced f p (fill_fee x f) pnl in
    let now_open : Opened y s p' =
      opened_put s (some (record e { opened = some p'; sl_type = some trail })) x.active in
    let entered : Entered p' (trade_of p'.trade_id y.tables.trades) =
      subst (Entered p') (sym (trade_of-update_self p.trade_id _ (λ t. refl) x.tables.trades))
        (reduced-Entered f p (fill_fee x f) pnl _ (m.entered s p o)) in
    let same : (q : OpenPart) → Opened y s q → p' ≡ q =
      λ q u. some-injective p' q (sym now_open ∙ u) in
    IsBooked-at x y s (λ j n. put_ne j s _ x.active n) (omega arith)
      (λ q u. subst (λ r. Entered r (trade_of r.trade_id y.tables.trades)) (same q u) entered)
      (λ q u. subst (λ r. r.trade_id < x.tables.next_trade) (same q u) (m.drawn s p o))
      (λ q u j r n w.
        λ eq. n (m.apart j s r p w o (sym eq ∙ ap (λ v. v.trade_id) (sym (same q u)))))
      (λ j q n w.
        trade_of-update_ne p.trade_id _ (λ t. refl) q.trade_id x.tables.trades
          (λ eq. n (m.apart j s q p w o eq)))
      m

front_row : (t : TradeRow) (ts : List TradeRow) → trade_of t.id (t ∷ ts) ≡ some t
unfolding trade_of
front_row t ts = ground arith

-- What an opening says of the part that it opens: a fresh key, with a row in front.
abbrev Fresh : Exchange → Exchange → OpenPart → Type 0
Fresh x y p = (p.trade_id ≡ x.tables.next_trade) × Entered p (trade_of p.trade_id y.tables.trades)

ticket_part : Ticket → ℕ → OpenPart
ticket_part k trade = record {
  trade_id = trade;
  side = k.side;
  qty = k.qty;
  entry_price = k.price;
  entry_fee = k.fee;
  fees_paid = k.fee;
  realized_pnl = none;
  tp_hit = false;
}

ticket_part-Fresh :
    (k : Ticket) (notional : Decimal) (x : Exchange)
    → Fresh x (commit_open k notional x).1 (ticket_part k x.tables.next_trade)
unfolding commit_open ticket_part
ticket_part-Fresh k notional x = (
  refl,
  subst (Entered (ticket_part k x.tables.next_trade)) (sym (front_row _ x.tables.trades)) (record {
    closing = refl;
    side = refl;
    entry_price = refl;
    qty = refl;
    fees_paid = refl;
    realized_pnl = refl;
  }),
)

Opened-row :
    (k : Ticket) (notional : Decimal) (x : Exchange) (p : OpenPart)
    → Opened (commit_open k notional x).1 k.symbol p
    → Fresh x (commit_open k notional x).1 p
unfolding commit_open opened_entry ticket_part
Opened-row k notional x p o =
    let y = (commit_open k notional x).1 in
    let first = ticket_part k x.tables.next_trade in
    let now_open : Opened y k.symbol first =
      opened_put k.symbol (some (opened_entry k x.tables.next_trade)) x.active in
    subst (Fresh x y) (some-injective first p (sym now_open ∙ o)) (ticket_part-Fresh k notional x)

older_row :
    (k : Ticket) (notional : Decimal) (x : Exchange) (id : ℕ)
    → id < x.tables.next_trade
    → trade_of id (commit_open k notional x).1.tables.trades ≡ trade_of id x.tables.trades
unfolding commit_open trade_of
older_row k notional x id h = ground arith

pub commit_open-IsBooked :
    (k : Ticket) (notional : Decimal) (x : Exchange)
    → IsBooked x
    → IsBooked (commit_open k notional x).1
unfolding commit_open
commit_open-IsBooked k notional x m =
    let y = (commit_open k notional x).1 in
    IsBooked-at x y k.symbol (λ j n. put_ne j k.symbol _ x.active n) (omega arith)
      (λ p o. (Opened-row k notional x p o).1)
      (λ p o. omega (arith, (Opened-row k notional x p o).0))
      (λ p o j q n w eq. omega (arith, (Opened-row k notional x p o).0, m.drawn j q w, eq))
      (λ j q n w. older_row k notional x q.trade_id (m.drawn j q w)) m

stops-opened :
    (r : StopRequest) (a : Option Entry) → (with_stops r (entry_or_new a)).opened ≡ opened_of a
unfolding with_stops entry_or_new
stops-opened r none = refl
stops-opened r (some e) = refl

pub commit_stops-IsBooked :
    (symbol : ℕ) (r : StopRequest) (now : ℕ) (x : Exchange)
    → IsBooked x
    → IsBooked (commit_stops symbol r now x)
unfolding commit_stops
commit_stops-IsBooked symbol r now x m =
    let y = commit_stops symbol r now x in
    let was : (p : OpenPart) → Opened y symbol p → Opened x symbol p =
      λ p o. sym (stops-opened r (x.active symbol)) ∙ sym (opened_put symbol _ x.active) ∙ o in
    IsBooked-at x y symbol (λ j n. put_ne j symbol _ x.active n) (omega arith)
      (λ p o. m.entered symbol p (was p o)) (λ p o. m.drawn symbol p (was p o))
      (λ p o j q n w eq. n (m.apart j symbol q p w (was p o) (sym eq))) (λ j q n w. refl) m
