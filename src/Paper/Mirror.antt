-- ===== src/Paper/Mirror.antt =====
-- The persisted positions mirror those in memory, whatever the exchange does.
pub mod Commits
pub mod Runs
pub mod Hydrate
use scalper_v.Base.{
  ℕ, ◌≡◌, refl, sym, subst, ◌≢◌, ◌⊎◌, inl, inr, Bool, true, false, Option, none, some, List, [],
  ◌∷◌, arith, ◌==◌, if◌then◌else◌, Bool-cases, Option-cases,
}
use native.Mathlib.Decide.{ℕ_discrete}
use scalper_v.Decimal.{Decimal}
use scalper_v.Decimal.Columns.{quantity_column, quantity_or_null}
use scalper_v.Paper.Types.{
  trail, Entry, OpenPart, PositionRow, Exchange, put, Result, ok, err, Fill, FillKind, sl, tp,
  TpslMode, full_mode, partial_mode, Tables,
}
use scalper_v.Paper.Tables.{update_positions, delete_positions, with_sl_tp, with_remaining}
use scalper_v.Paper.Fill.{commit_partial, commit_close, drain_sl_tp_fill, reduced, fill_fee}
use scalper_v.Paper.Orders.{
  Ticket, position_row, opened_entry, commit_open, commit_manual, opened_of, place_market_order,
}
use scalper_v.Paper.Stops.{StopRequest, with_stops, entry_or_new, commit_stops, set_trading_stop}

unfoldable pub position_of : ℕ → List PositionRow → Option PositionRow
position_of symbol [] = none
position_of symbol (r ∷ rs) = if r.symbol == symbol then some r else position_of symbol rs

-- An open position against a row, with exactly the values of the row.
pub record Agrees (e : Entry) (p : OpenPart) (r : PositionRow) : Type 0 where
  pub trade_id : r.trade_id ≡ p.trade_id
  pub side : r.side ≡ p.side
  pub entry_price : r.entry_price ≡ p.entry_price
  pub qty : r.remaining_qty ≡ p.qty
  pub tp_hit : r.tp_hit ≡ p.tp_hit
  pub sl_price : r.sl_price ≡ e.sl_price
  pub tp_price : r.tp_price ≡ e.tp_price

abbrev pub Matches : Entry → Option OpenPart → Option PositionRow → Type 0
Matches e none none = Unit {0}
Matches e (some p) (some r) = Agrees e p r
Matches e none (some r) = ⊥
Matches e (some p) none = ⊥

abbrev pub Mirrors : Option Entry → Option PositionRow → Type 0
Mirrors none none = Unit {0}
Mirrors none (some r) = ⊥
Mirrors (some e) row = Matches e e.opened row

-- What the columns keep of an open position: prices and quantities to twelve decimals.
abbrev pub stored_part : OpenPart → OpenPart
stored_part p = record p {
  qty = quantity_column p.qty;
  entry_price = quantity_column p.entry_price;
}

abbrev pub stored_opened : Option OpenPart → Option OpenPart
stored_opened none = none
stored_opened (some p) = some (stored_part p)

abbrev pub stored_entry : Entry → Entry
stored_entry e = record e {
  opened = stored_opened e.opened;
  sl_price = quantity_or_null e.sl_price;
  tp_price = quantity_or_null e.tp_price;
}

abbrev pub stored : Option Entry → Option Entry
stored none = none
stored (some e) = some (stored_entry e)

-- Every symbol's open position stands in the table of positions, rounded to the scale of the columns,
-- and no other row does.
abbrev pub IsMirrored : Exchange → Type 0
IsMirrored x = (j : ℕ) → Mirrors (stored (x.active j)) (position_of j x.tables.positions)

-- The same with the values in memory exactly those of the rows.
abbrev pub IsExact : Exchange → Type 0
IsExact x = (j : ℕ) → Mirrors (x.active j) (position_of j x.tables.positions)

abbrev map_row : (PositionRow → PositionRow) → Option PositionRow → Option PositionRow
map_row f none = none
map_row f (some r) = some (f r)

module _ (symbol : ℕ) (f : PositionRow → PositionRow)
    (keeps : (r : PositionRow) → (f r).symbol ≡ r.symbol) where
  position_of-update_self :
      (rs : List PositionRow)
      → position_of symbol (update_positions symbol f rs) ≡ map_row f (position_of symbol rs)
  unfolding position_of update_positions
  position_of-update_self [] = refl
  position_of-update_self (r ∷ rs) = ground (arith, keeps r, position_of-update_self rs)

  position_of-update_ne :
      (j : ℕ) (rs : List PositionRow)
      → j ≢ symbol
      → position_of j (update_positions symbol f rs) ≡ position_of j rs
  unfolding position_of update_positions
  position_of-update_ne j [] h = refl
  position_of-update_ne j (r ∷ rs) h = ground (arith, keeps r, position_of-update_ne j rs)

pub position_of-delete_self :
    (symbol : ℕ) (rs : List PositionRow) → position_of symbol (delete_positions symbol rs) ≡ none
unfolding position_of delete_positions
position_of-delete_self symbol [] = refl
position_of-delete_self symbol (r ∷ rs) = ground (arith, position_of-delete_self symbol rs)

pub position_of-delete_ne :
    (j symbol : ℕ) (rs : List PositionRow)
    → j ≢ symbol
    → position_of j (delete_positions symbol rs) ≡ position_of j rs
unfolding position_of delete_positions
position_of-delete_ne j symbol [] h = refl
position_of-delete_ne j symbol (r ∷ rs) h = ground (arith, position_of-delete_ne j symbol rs)

-- Every operation changes memory and the table at one symbol; elsewhere both stay.
module _ (x y : Exchange) (symbol : ℕ)
    (here : Mirrors (stored (y.active symbol)) (position_of symbol y.tables.positions))
    (memory : (j : ℕ) → j ≢ symbol → y.active j ≡ x.active j)
    (table : (j : ℕ)
      → j ≢ symbol
      → position_of j y.tables.positions ≡ position_of j x.tables.positions)
    (before : IsMirrored x) where
  at_one_symbol : IsMirrored y
  at_one_symbol j = elim (ℕ_discrete j symbol) [
    | yes e ↦
        subst (λ k. Mirrors (stored (y.active k)) (position_of k y.tables.positions)) (sym e) here
    | no n ↦ rw (memory j n, table j n) (before j)
  ]

pub put_self {ℓ} : {V : Type ℓ} (k : ℕ) (v : Option V) (d : ℕ → Option V) → put k v d k ≡ v
put_self k v d = ground arith

pub put_ne {ℓ} :
    {V : Type ℓ} (j k : ℕ) (v : Option V) (d : ℕ → Option V) → j ≢ k → put k v d j ≡ d j
put_ne j k v d h = ground arith
