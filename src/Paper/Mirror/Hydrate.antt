-- ===== src/Paper/Mirror/Hydrate.antt =====
-- What a restart brings back from the tables, and what it does not.
use scalper_v.Base.{ℕ, ◌≡◌, arith, true, Option, none, some, List, [], ◌∷◌, All, is_some}
use scalper_v.Paper.Types.{Entry, OpenPart, PositionRow, Tables, Exchange, full_mode}
use scalper_v.Paper.Restart.{
  joined, hydrated, set_if, hydrate_rows, hydrate_active_positions, restarted, start_consuming,
}
use scalper_v.Paper.Mirror.{position_of, Mirrors, IsExact}

abbrev pub Joins : Tables → List PositionRow → Type 0
Joins t rows = All (λ r. is_some (joined r t) ≡ true) rows

joined-Mirrors :
    (r : PositionRow) (t : Tables) → is_some (joined r t) ≡ true → Mirrors (joined r t) (some r)
unfolding joined hydrated
joined-Mirrors r t h = ground arith

hydrate_rows-Mirrors :
    (rows : List PositionRow) (t : Tables) (j : ℕ)
    → Joins t rows
    → Mirrors (hydrate_rows rows t (λ s. none) j) (position_of j rows)
unfolding hydrate_rows position_of
hydrate_rows-Mirrors [] t j h = tt
hydrate_rows-Mirrors (r ∷ rs) t j h =
    ground (arith, joined-Mirrors r t h.0, hydrate_rows-Mirrors rs t j h.1)

-- If each row of the positions table finds its trade and its opening execution, an exchange that
-- starts anew over the tables, with no seeded state, has in memory exactly the open positions of the
-- table: the same trade, side, entry price, remaining quantity, take profit flag and stops.
pub restart-IsMirrored :
    (x : Exchange)
    → Joins x.tables x.tables.positions
    → IsExact (start_consuming none (restarted x))
unfolding start_consuming hydrate_active_positions restarted
restart-IsMirrored x joins j = hydrate_rows-Mirrors x.tables.positions x.tables j joins

-- What no restart brings back: the profit of the partial closes, and the size and mode of the take
-- profit.
abbrev pub Bare : Entry → Option OpenPart → Type 0
Bare e none = Unit {0}
Bare e (some p) = (p.realized_pnl ≡ none) × (e.tp_size ≡ none) × (e.tpsl_mode ≡ full_mode)

abbrev pub Forgotten : Option Entry → Type 0
Forgotten none = Unit {0}
Forgotten (some e) = Bare e e.opened

joined-Forgotten : (r : PositionRow) (t : Tables) → Forgotten (joined r t)
unfolding joined hydrated
joined-Forgotten r t = ground arith

hydrate_rows-Forgotten :
    (rows : List PositionRow) (t : Tables) (j : ℕ) → Forgotten (hydrate_rows rows t (λ s. none) j)
unfolding hydrate_rows set_if
hydrate_rows-Forgotten [] t j = tt
hydrate_rows-Forgotten (r ∷ rs) t j =
    ground (arith, joined-Forgotten r t, hydrate_rows-Forgotten rs t j)

-- After a restart with no seeded state, no open position knows what its partial closes earned, nor the
-- size and the mode of its take profit, whatever the tables hold.
pub restart-Forgotten :
    (x : Exchange) (j : ℕ) → Forgotten ((start_consuming none (restarted x)).active j)
unfolding start_consuming hydrate_active_positions restarted
restart-Forgotten x j = hydrate_rows-Forgotten x.tables.positions x.tables j
