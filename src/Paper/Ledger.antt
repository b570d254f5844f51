-- ===== src/Paper/Ledger.antt =====
-- The rows of open trades in the table of trades follow the positions in memory.
pub mod Commits
pub mod Runs
mod Examples
use native.Mathlib.Decide.{ℕ_discrete}
use scalper_v.Base.{
  ℕ, ◌+◌, ◌≤◌, ◌<◌, ◌≡◌, ◌≢◌, refl, sym, ap, subst, ◌∙◌, arith, Option, none, some, List, [], ◌∷◌,
}
use scalper_v.Decimal.Columns.{quantity_column, money_column, money_or_null}
use scalper_v.Paper.Types.{OpenPart, TradeRow, Exchange}
use scalper_v.Paper.Tables.{update_trades}
use scalper_v.Paper.Orders.{opened_of}
use scalper_v.Paper.Restart.{trade_of}

-- The row of an open position: not closed, and with its entry price, quantity, fees and profit so far,
-- each rounded to the scale of its column.
pub record AgreesTrade (p : OpenPart) (t : TradeRow) : Type 0 where
  pub closing : t.closing ≡ none
  pub side : t.side ≡ p.side
  pub entry_price : t.entry_price ≡ quantity_column p.entry_price
  pub qty : t.qty ≡ quantity_column p.qty
  pub fees_paid : t.fees_paid ≡ money_column p.fees_paid
  pub realized_pnl : t.realized_pnl ≡ money_or_null p.realized_pnl

abbrev pub Entered : OpenPart → Option TradeRow → Type 0
Entered p none = ⊥
Entered p (some t) = AgreesTrade p t

abbrev pub Opened : Exchange → ℕ → OpenPart → Type 0
Opened x j p = opened_of (x.active j) ≡ some p

-- Every open position has its open row, under a key that was drawn and that no other position has.
pub record IsBooked (x : Exchange) : Type 0 where
  pub entered :
      (j : ℕ) (p : OpenPart) → Opened x j p → Entered p (trade_of p.trade_id x.tables.trades)
  pub drawn : (j : ℕ) (p : OpenPart) → Opened x j p → p.trade_id < x.tables.next_trade
  pub apart :
      (j k : ℕ) (p q : OpenPart) → Opened x j p → Opened x k q → p.trade_id ≡ q.trade_id → j ≡ k

abbrev map_trade : (TradeRow → TradeRow) → Option TradeRow → Option TradeRow
map_trade f none = none
map_trade f (some t) = some (f t)

module _ (id : ℕ) (f : TradeRow → TradeRow) (keeps : (t : TradeRow) → (f t).id ≡ t.id) where
  trade_of-update_self :
      (ts : List TradeRow) → trade_of id (update_trades id f ts) ≡ map_trade f (trade_of id ts)
  unfolding trade_of update_trades
  trade_of-update_self [] = refl
  trade_of-update_self (t ∷ ts) = ground (arith, keeps t, trade_of-update_self ts)

  trade_of-update_ne :
      (j : ℕ) (ts : List TradeRow) → j ≢ id → trade_of j (update_trades id f ts) ≡ trade_of j ts
  unfolding trade_of update_trades
  trade_of-update_ne j [] h = refl
  trade_of-update_ne j (t ∷ ts) h = ground (arith, keeps t, trade_of-update_ne j ts)

-- An operation that changes memory at one symbol only, and leaves the rows of all other positions.
module _ (x y : Exchange) (s : ℕ) (elsewhere : (j : ℕ) → j ≢ s → y.active j ≡ x.active j)
    (further : x.tables.next_trade ≤ y.tables.next_trade)
    (here_entered : (p : OpenPart) → Opened y s p → Entered p (trade_of p.trade_id y.tables.trades))
    (here_drawn : (p : OpenPart) → Opened y s p → p.trade_id < y.tables.next_trade)
    (here_apart : (p : OpenPart)
      → Opened y s p
      → (j : ℕ) (q : OpenPart) → j ≢ s
      → Opened x j q
      → p.trade_id ≢ q.trade_id)
    (rows : (j : ℕ) (q : OpenPart)
      → j ≢ s
      → Opened x j q
      → trade_of q.trade_id y.tables.trades ≡ trade_of q.trade_id x.tables.trades)
    (before : IsBooked x) where
  back : (j : ℕ) (q : OpenPart) → j ≢ s → Opened y j q → Opened x j q
  back j q n o = ap opened_of (sym (elsewhere j n)) ∙ o

  Entered-after :
      (j : ℕ) (p : OpenPart) → Opened y j p → Entered p (trade_of p.trade_id y.tables.trades)
  Entered-after j p o = elim (ℕ_discrete j s) [
    | yes e ↦ here_entered p (subst (λ k. Opened y k p) e o)
    | no n ↦ subst (Entered p) (sym (rows j p n (back j p n o))) (before.entered j p (back j p n o))
  ]

  drawn_after : (j : ℕ) (p : OpenPart) → Opened y j p → p.trade_id < y.tables.next_trade
  drawn_after j p o = elim (ℕ_discrete j s) [
    | yes e ↦ here_drawn p (subst (λ k. Opened y k p) e o)
    | no n ↦ omega (arith, before.drawn j p (back j p n o), further)
  ]

  apart_after :
      (j k : ℕ) (p q : OpenPart) → Opened y j p → Opened y k q → p.trade_id ≡ q.trade_id → j ≡ k
  apart_after j k p q o u same = elim (ℕ_discrete j s) [
    | yes e ↦ elim (ℕ_discrete k s) [
      | yes f ↦ e ∙ sym f
      | no m ↦ absurd (here_apart p (subst (λ l. Opened y l p) e o) k q m (back k q m u) same)
    ]
    | no n ↦ elim (ℕ_discrete k s) [
      | yes f ↦
          absurd (here_apart q (subst (λ l. Opened y l q) f u) j p n (back j p n o) (sym same))
      | no m ↦ before.apart j k p q (back j p n o) (back k q m u) same
    ]
  ]

  IsBooked-at : IsBooked y
  IsBooked-at = record { entered = Entered-after; drawn = drawn_after; apart = apart_after }
