-- ===== src/Risk/OppositeSide.antt =====
-- services/strategy_engine/app/opposite_side_gate.py: no signal against the open position.
use scalper_v.Base.{
  ◌≡◌, refl, sym, ap, ◌∙◌, inl, inr, Memᴰ, Bool-cases, arith, ◌↔◌, ℕ, Bool, true, false, Option,
  none, some, List, [], ◌∷◌, ◌==◌, ◌&&◌, if◌then◌else◌,
}
use mathlib.Core.List.Memᴰ.{head, tail}
use scalper_v.Domain.{Side, buy, sell, ExchangeMode, live, testnet, paper, demo}
use scalper_v.Risk.Trades.{RiskSection}

-- A row of `position_state` or `paper_position_state`.
pub record PositionRow : Type 0 where
  pub bot_id : ℕ
  pub symbol : ℕ
  pub side : Side

-- `select_open_position_side` of packages/db/queries/execution.py; (bot, symbol) is the key.
unfoldable pub select_open_position_side : ℕ → ℕ → List PositionRow → Option Side
select_open_position_side bot symbol [] = none
select_open_position_side bot symbol (r ∷ rs) =
    if r.bot_id == bot && r.symbol == symbol
    then some r.side
    else select_open_position_side bot symbol rs

unfoldable pub same_side : Side → Side → Bool
same_side buy buy = true
same_side sell sell = true
same_side buy sell = false
same_side sell buy = false

pub record OppositeSideDecision : Type 0 where
  pub active : Bool
  pub open_side : Option Side
  pub signal_side : Side

judge : Option Side → Side → OppositeSideDecision
unfolding same_side
judge none side = record { active = false; open_side = none; signal_side = side }
judge (some held) side =
    if same_side held side
    then record { active = false; open_side = some held; signal_side = side }
    else record { active = true; open_side = some held; signal_side = side }

-- The two tables that the gate names. `none` is a table that does not exist, and a query of it
-- raises.
pub record PositionTables : Type 0 where
  pub position_state : Option (List PositionRow)
  pub paper_position_state : Option (List PositionRow)

-- The tables that the migrations under migrations/versions create: none of them makes
-- `paper_position_state`.
abbrev pub migrated : List PositionRow → PositionTables
migrated rows = record { position_state = some rows; paper_position_state = none }

abbrev pub positions_of : ExchangeMode → PositionTables → Option (List PositionRow)
positions_of paper tables = tables.paper_position_state
positions_of live tables = tables.position_state
positions_of testnet tables = tables.position_state
positions_of demo tables = tables.position_state

judge_table : ℕ → ℕ → Side → Option (List PositionRow) → Option OppositeSideDecision
unfolding judge
judge_table bot symbol side none = none
judge_table bot symbol side (some rows) =
    some (judge (select_open_position_side bot symbol rows) side)

-- `none` is the exception of the query.
unfoldable pub check_opposite_side :
    ℕ → PositionTables → ExchangeMode → ℕ → Side → RiskSection → Option OppositeSideDecision
unfolding judge_table
check_opposite_side bot tables mode symbol side risk = elim risk.block_opposite_side [
  | false ↦ some (record { active = false; open_side = none; signal_side = side })
  | true ↦ judge_table bot symbol side (positions_of mode tables)
]

abbrev pub flip : Side → Side
flip buy = sell
flip sell = buy

judge-active :
    (held : Option Side) (side : Side)
    → ((judge held side).active ≡ true) ↔ (held ≡ some (flip side))
unfolding judge
judge-active none side = (λ h. cc, λ h. cc)
judge-active (some buy) buy = (λ h. cc, λ h. cc)
judge-active (some buy) sell = (λ h. refl, λ h. refl)
judge-active (some sell) buy = (λ h. refl, λ h. refl)
judge-active (some sell) sell = (λ h. cc, λ h. cc)

-- With the guard on and the table there, the gate answers by the side that the query finds.
pub check_opposite_side-judges :
    (bot : ℕ) (tables : PositionTables) (mode : ExchangeMode) (symbol : ℕ) (side : Side)
    (risk : RiskSection) (rows : List PositionRow)
    → risk.block_opposite_side ≡ true
    → positions_of mode tables ≡ some rows
    → (d : OppositeSideDecision) × (check_opposite_side bot tables mode symbol side risk ≡ some d)
      × ((d.active ≡ true) ↔ (select_open_position_side bot symbol rows ≡ some (flip side)))
unfolding check_opposite_side judge_table
check_opposite_side-judges bot tables mode symbol side risk rows on there =
    let held = select_open_position_side bot symbol rows in
    (judge held side, ground arith, judge-active held side)

-- A row of the bot in the symbol.
abbrev pub IsOf : ℕ → ℕ → PositionRow → Type 0
IsOf bot symbol r = (r.bot_id ≡ bot) × (r.symbol ≡ symbol)

-- The primary key: of two rows with one bot and symbol the first stands for both.
abbrev pub IsKeyed : List PositionRow → Type 0
IsKeyed rows =
    (r q : PositionRow) → Memᴰ r rows → Memᴰ q rows → IsOf r.bot_id r.symbol q → r.side ≡ q.side

-- A row of the bot in the symbol with the side.
abbrev pub Found : ℕ → ℕ → List PositionRow → Side → Type 0
Found bot symbol rows side = (r : PositionRow) × Memᴰ r rows × IsOf bot symbol r × (r.side ≡ side)

select-Found :
    (bot symbol : ℕ) (rows : List PositionRow) (side : Side)
    → select_open_position_side bot symbol rows ≡ some side
    → Found bot symbol rows side
unfolding select_open_position_side
select-Found bot symbol [] side h = cc h
select-Found bot symbol (q ∷ qs) side h =
    elim (Bool-cases (q.bot_id == bot && q.symbol == symbol)) [
      | inl here ↦
          (q, head refl, (ground (arith, here), ground (arith, here)), ground (arith, here, h))
      | inr other ↦
          let (r, m, k, e) = select-Found bot symbol qs side (ground (arith, other, h)) in
          (r, tail m, k, e)
    ]

select-first :
    (bot symbol : ℕ) (rows : List PositionRow) (r : PositionRow)
    → Memᴰ r rows
    → IsOf bot symbol r
    → (held : Side) × (select_open_position_side bot symbol rows ≡ some held)
unfolding select_open_position_side
select-first bot symbol [] r m k = elim m [ ]
select-first bot symbol (q ∷ qs) r m k = elim (Bool-cases (q.bot_id == bot && q.symbol == symbol)) [
  | inl here ↦ (q.side, rw here refl)
  | inr other ↦ elim m [
    | head e ↦ absurd (ground (arith, other, k, e))
    | tail n ↦ let (held, s) = select-first bot symbol qs r n k in (held, rw other s)
  ]
]

Found-select :
    (bot symbol : ℕ) (rows : List PositionRow) (side : Side)
    → IsKeyed rows
    → Found bot symbol rows side
    → select_open_position_side bot symbol rows ≡ some side
Found-select bot symbol rows side keyed (r, m, k, e) =
    let (held, s) = select-first bot symbol rows r m k in
    let (q, n, l, f) = select-Found bot symbol rows held s in
    s ∙ ap some (sym f ∙ sym (keyed r q m n (l.0 ∙ sym k.0, l.1 ∙ sym k.1)) ∙ e)

-- With the table there, and one row for each bot and symbol, the gate answers, and it blocks exactly if
-- the guard is on and the table has a row of this bot in this symbol with the other side.
pub check_opposite_side-blocks :
    (bot : ℕ) (tables : PositionTables) (mode : ExchangeMode) (symbol : ℕ) (side : Side)
    (risk : RiskSection) (rows : List PositionRow)
    → positions_of mode tables ≡ some rows
    → IsKeyed rows
    → (d : OppositeSideDecision) × (check_opposite_side bot tables mode symbol side risk ≡ some d)
      × ((d.active ≡ true)
          ↔ ((risk.block_opposite_side ≡ true) × Found bot symbol rows (flip side)))
unfolding check_opposite_side judge_table
check_opposite_side-blocks bot tables mode symbol side risk rows there keyed =
    elim (Bool-cases risk.block_opposite_side) [
      | inl on ↦
          let (d, answers, (blocks, blocked)) =
            check_opposite_side-judges bot tables mode symbol side risk rows on there in
          (
            d,
            answers,
            (
              λ h. (on, select-Found bot symbol rows (flip side) (blocks h)),
              λ (_, found). blocked (Found-select bot symbol rows (flip side) keyed found),
            ),
          )
      | inr off ↦ (
        record { active = false; open_side = none; signal_side = side },
        ground arith,
        (λ h. cc h, λ (on, _). cc (on, off)),
      )
    ]
