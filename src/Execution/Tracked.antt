-- ===== src/Execution/Tracked.antt =====
-- services/execution/app: the open trades and the rows of `position_state`, by their keys, and what
-- the statements make of them.
pub mod Moves
pub mod Fills
pub mod Runs
use scalper_v.Base.{
  arith, ℕ, ◌+◌, ◌≤◌, ◌≡◌, refl, ◌≢◌, ◌⊎◌, inl, inr, Bool, true, false, Option, none, some, List,
  [], ◌∷◌, ◌==◌, ◌&&◌, if◌then◌else◌,
}
use scalper_v.Decimal.{Decimal}
use scalper_v.Lifecycle.{SlType}
use scalper_v.Execution.{Closing, TradeRow, PositionStateRow, Tables}
use scalper_v.Execution.Statements.{
  update_trade, without_position, fill_positions, at_key, closed_with,
}

-- The trade of the position of a bot on a symbol.
unfoldable pub trade_at : ℕ → ℕ → List PositionStateRow → Option ℕ
trade_at b s [] = none
trade_at b s (r ∷ rs) =
    let later = trade_at b s rs in if at_key b s r then some r.trade_id else later

abbrev pub place_if_open : Option Closing → ℕ → ℕ → Option (ℕ × ℕ)
place_if_open none b s = some (b, s)
place_if_open (some c) b s = none

-- The bot and the symbol of a trade that is open.
unfoldable pub open_at : ℕ → List TradeRow → Option (ℕ × ℕ)
open_at id [] = none
open_at id (r ∷ rs) =
    let later = open_at id rs in
    if r.id == id then place_if_open r.closing r.bot_id r.symbol else later

-- The primary key of `position_state`.
unfoldable pub Unique : List PositionStateRow → Type 0
unfolding trade_at
Unique [] = Unit
Unique (r ∷ rs) = (trade_at r.bot_id r.symbol rs ≡ none) × Unique rs

-- The positions and the open trades are the same, each with its bot and symbol.
abbrev pub Agree : (ℕ → ℕ → Option ℕ) → (ℕ → Option (ℕ × ℕ)) → Type 0
Agree p q =
    (b s id : ℕ) → (p b s ≡ some id → q id ≡ some (b, s)) × (q id ≡ some (b, s) → p b s ≡ some id)

pub record IsTracked (t : Tables) : Type 0 where
  pub agree : Agree (λ b s. trade_at b s t.position_state) (λ id. open_at id t.trades)
  pub below : (id : ℕ) → t.next_trade ≤ id → open_at id t.trades ≡ none
  pub unique : Unique t.position_state

-- The row of a position is current, or the position and the trade are gone.
abbrev pub Current : (b s k : ℕ) → Tables → Type 0
Current b s k t =
    (trade_at b s t.position_state ≡ some k)
    ⊎ ((trade_at b s t.position_state ≡ none) × (open_at k t.trades ≡ none))

module _ (p : ℕ → ℕ → Option ℕ) (q : ℕ → Option (ℕ × ℕ)) (h : Agree p q) where
  pub Agree-open :
      (b0 s0 n : ℕ)
      → p b0 s0 ≡ none
      → q n ≡ none
      → Agree
          (λ b s. if (b0 == b) && (s0 == s) then some n else p b s)
          (λ id. if n == id then some (b0, s0) else q id)
  Agree-open b0 s0 n free fresh b s id =
      (λ e. ground (arith, h b s id), λ e. ground (arith, h b s id))

  pub Agree-close :
      (b0 s0 k : ℕ)
      → (p b0 s0 ≡ some k) ⊎ ((p b0 s0 ≡ none) × (q k ≡ none))
      → Agree
          (λ b s. if (b == b0) && (s == s0) then none else p b s)
          (λ id. if id == k then none else q id)
  Agree-close b0 s0 k (inl at) b s id =
      (λ e. ground (arith, h b s id, h b0 s0 k), λ e. ground (arith, h b s id, h b0 s0 k))
  Agree-close b0 s0 k (inr gone) b s id =
      (λ e. ground (arith, h b s id), λ e. ground (arith, h b s id))

pub trade_at-without :
    (b s b0 s0 : ℕ) (rs : List PositionStateRow)
    → trade_at b s (without_position b0 s0 rs)
      ≡ (if (b == b0) && (s == s0) then none else trade_at b s rs)
unfolding trade_at without_position
trade_at-without b s b0 s0 [] = ground arith
trade_at-without b s b0 s0 (r ∷ rs) = ground (arith, trade_at-without b s b0 s0 rs)

-- A fill leaves the keys and the trade of every row alone.
pub trade_at-fill :
    (b s b0 s0 k : ℕ) (f : PositionStateRow → PositionStateRow)
    → ((r : PositionStateRow)
        → ((f r).bot_id ≡ r.bot_id) × ((f r).symbol ≡ r.symbol) × ((f r).trade_id ≡ r.trade_id))
    → (rs : List PositionStateRow) → trade_at b s (fill_positions b0 s0 k f rs).1 ≡ trade_at b s rs
unfolding trade_at fill_positions
trade_at-fill b s b0 s0 k f l [] = refl
trade_at-fill b s b0 s0 k f l (r ∷ rs) = ground (arith, l r, trade_at-fill b s b0 s0 k f l rs)

-- A fill that changes no row meets no position of its trade.
count-none :
    (b s k : ℕ) (f : PositionStateRow → PositionStateRow) (rs : List PositionStateRow)
    → trade_at b s rs ≡ none
    → (fill_positions b s k f rs).0 ≡ 0
unfolding trade_at fill_positions
count-none b s k f [] h = refl
count-none b s k f (r ∷ rs) h = ground (arith, count-none b s k f rs)

pub filled-here :
    (b s k : ℕ) (f : PositionStateRow → PositionStateRow) (rs : List PositionStateRow)
    → Unique rs
    → (fill_positions b s k f rs).0 ≢ 0
    → trade_at b s rs ≡ some k
unfolding trade_at fill_positions Unique
filled-here b s k f [] u h = absurd (h refl)
filled-here b s k f (r ∷ rs) u h = ground (arith, filled-here b s k f rs, count-none b s k f rs)

pub Unique-without :
    (b s : ℕ) (rs : List PositionStateRow) → Unique rs → Unique (without_position b s rs)
unfolding Unique without_position
Unique-without b s [] u = tt
Unique-without b s (r ∷ rs) u =
    ground (arith, trade_at-without r.bot_id r.symbol b s rs, Unique-without b s rs)

pub Unique-fill :
    (b s k : ℕ) (f : PositionStateRow → PositionStateRow)
    → ((r : PositionStateRow)
        → ((f r).bot_id ≡ r.bot_id) × ((f r).symbol ≡ r.symbol) × ((f r).trade_id ≡ r.trade_id))
    → (rs : List PositionStateRow) → Unique rs
    → Unique (fill_positions b s k f rs).1
unfolding Unique fill_positions
Unique-fill b s k f l [] u = tt
Unique-fill b s k f l (r ∷ rs) u =
    ground (arith, l r, trade_at-fill r.bot_id r.symbol b s k f l rs, Unique-fill b s k f l rs)

pub open_at-close :
    (j id : ℕ) (c : Closing) (fees : Option Decimal) (ts : List TradeRow)
    → open_at j (update_trade id (closed_with c fees) ts) ≡ (if j == id then none else open_at j ts)
unfolding open_at update_trade
open_at-close j id c fees [] = ground arith
open_at-close j id c fees (r ∷ rs) = ground (arith, open_at-close j id c fees rs)

-- An update that leaves alone what is read here.
abbrev pub Leaves : (TradeRow → TradeRow) → Type 0
Leaves g =
    (r : TradeRow)
    → ((g r).id ≡ r.id)
      × ((g r).closing ≡ r.closing)
      × ((g r).bot_id ≡ r.bot_id)
      × ((g r).symbol ≡ r.symbol)

pub open_at-update :
    (j id : ℕ) (g : TradeRow → TradeRow)
    → Leaves g
    → (ts : List TradeRow) → open_at j (update_trade id g ts) ≡ open_at j ts
unfolding open_at update_trade
open_at-update j id g l [] = refl
open_at-update j id g l (r ∷ rs) = ground (arith, l r, open_at-update j id g l rs)
