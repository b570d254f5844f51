-- ===== src/Paper/Invariant.antt =====
-- What an invariant of the paper exchange has to be kept by, for every call to keep it: the commits to
-- memory and tables, and the changes of the queue, the cache and the orders.
pub mod Candles
pub mod Runs
use scalper_v.Base.{ℕ, ◌≡◌, Option, none, some, List}
use scalper_v.Decimal.{Decimal}
use scalper_v.Paper.Types.{Candle, Entry, OpenPart, Fill, Exchange, Result, ok, err}
use scalper_v.Paper.Fill.{commit_partial, commit_close}
use scalper_v.Paper.Orders.{Ticket, opened_of, commit_open, commit_manual}
use scalper_v.Paper.Stops.{StopRequest, commit_stops, cancel_order}
use scalper_v.Paper.Candle.{Stepped, cache}

pub record Preserves (Inv : Exchange → Type 0) : Type 0 where
  pub queued : (fs : List Fill) (x : Exchange) → Inv x → Inv (record x { pending = fs })
  pub cached : (c : Candle) (x : Exchange) → Inv x → Inv (cache c x)
  pub cancelled : (id : ℕ) (x : Exchange) → Inv x → Inv (cancel_order id x)
  pub partial :
      (f : Fill) (e : Entry) (p : OpenPart) (pnl : Decimal) (x : Exchange)
      → x.active f.symbol ≡ some e
      → e.opened ≡ some p
      → Inv x
      → Inv (commit_partial f e p pnl x)
  pub closed :
      (f : Fill) (e : Entry) (p : OpenPart) (pnl : Decimal) (x : Exchange)
      → x.active f.symbol ≡ some e
      → e.opened ≡ some p
      → Inv x
      → Inv (commit_close f e p pnl x)
  pub opened :
      (k : Ticket) (notional : Decimal) (x : Exchange)
      → opened_of (x.active k.symbol) ≡ none
      → Inv x
      → Inv (commit_open k notional x).1
  pub manual :
      (k : Ticket) (p : OpenPart) (pnl : Decimal) (x : Exchange)
      → opened_of (x.active k.symbol) ≡ some p
      → Inv x
      → Inv (commit_manual k p pnl x)
  pub stopped :
      (symbol : ℕ) (r : StopRequest) (now : ℕ) (x : Exchange)
      → Inv x
      → Inv (commit_stops symbol r now x)

module _ (Inv : Exchange → Type 0) where
  -- What a fallible operation leaves: nothing new if it raises.
  abbrev pub Keeps : Exchange → Result Exchange → Type 0
  Keeps x (err e) = Unit {0}
  Keeps x (ok y) = Inv x → Inv y

  -- What a handler leaves keeps the invariant, also where it raises.
  abbrev pub Stays : Stepped → Type 0
  Stays (o, y) = Inv y

  -- What an order leaves.
  abbrev pub PlacedKeeps : Exchange → Result (Option ℕ × Exchange) → Type 0
  PlacedKeeps x (err e) = Unit {0}
  PlacedKeeps x (ok (trade, y)) = Inv x → Inv y
