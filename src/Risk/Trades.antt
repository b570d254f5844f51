-- ===== src/Risk/Trades.antt =====
-- packages/db/queries/trades.py: the queries over the table of trades, and `RiskSection` of
-- packages/scoring/types.py. Amounts are NUMERIC(20,4), integers in units of 0.0001, which the
-- database adds exactly.
use scalper_v.Base.{
  ℕ, ◌+◌, Bool, true, false, ◌&&◌, ◌||◌, Option, none, some, List, [], ◌∷◌, ltb, leb, ◌==◌,
  if◌then◌else◌, take,
}
use scalper_v.Base.Int.{ℤ, pos, ◌+ℤ◌, ltb_ℤ}
use scalper_v.Decimal.{Decimal}

pub record RiskSection : Type 0 where
  pub cooldown_after_loss_minutes : ℕ
  pub cooldown_after_streak_n_losses : ℕ
  pub cooldown_after_streak_n_losses_minutes : ℕ
  pub max_open_trades_per_bot : ℕ
  pub max_open_trades_global : ℕ
  pub daily_loss_limit_usd : Decimal
  pub max_drawdown_pct : Decimal
  pub block_opposite_side : Bool

pub data TradeStatus : Type 0 where
  opened closed : TradeStatus

-- A row of `trades` or `paper_trades`; `closed_at` has no meaning in an open trade.
pub record TradeRow : Type 0 where
  pub id : ℕ
  pub bot_id : ℕ
  pub status : TradeStatus
  pub realized_pnl : Option ℤ
  pub closed_at : ℕ

pub record ClosedTradeRow : Type 0 where
  pub realized_pnl : ℤ
  pub closed_at : ℕ

-- `WHERE bot_id = $1 AND status = 'closed' AND realized_pnl IS NOT NULL`, with the value.
unfoldable pub finalized : ℕ → TradeRow → Option ℤ
finalized bot r =
    if r.bot_id == bot then elim r.status [ opened ↦ none | closed ↦ r.realized_pnl ] else none

pub record Ranked : Type 0 where
  pub rank : ℕ
  pub row : ClosedTradeRow

-- `ORDER BY closed_at DESC, id DESC`: the first comes no later in the result.
unfoldable pub newer : Ranked → Ranked → Bool
newer a b =
    ltb b.row.closed_at a.row.closed_at || (a.row.closed_at == b.row.closed_at && leb b.rank a.rank)

unfoldable pub insert_newest : Ranked → List Ranked → List Ranked
unfolding newer
insert_newest a [] = a ∷ []
insert_newest a (b ∷ bs) = if newer a b then a ∷ (b ∷ bs) else b ∷ insert_newest a bs

unfoldable pub keep_finalized : ℕ → TradeRow → List Ranked → List Ranked
unfolding finalized insert_newest
keep_finalized bot r sorted = elim (finalized bot r) [
  | none ↦ sorted
  | some pnl ↦
      insert_newest
        (record { rank = r.id; row = record { realized_pnl = pnl; closed_at = r.closed_at } })
        sorted
]

unfoldable pub sorted_closed : ℕ → List TradeRow → List Ranked
unfolding keep_finalized
sorted_closed bot [] = []
sorted_closed bot (r ∷ rs) = keep_finalized bot r (sorted_closed bot rs)

unfoldable pub rows_of : List Ranked → List ClosedTradeRow
rows_of [] = []
rows_of (r ∷ rs) = r.row ∷ rows_of rs

-- All the closed trades of a bot, newest first.
unfoldable pub closed_trades : ℕ → List TradeRow → List ClosedTradeRow
unfolding sorted_closed rows_of
closed_trades bot table = rows_of (sorted_closed bot table)

unfoldable pub select_recent_closed_trades : ℕ → List TradeRow → ℕ → List ClosedTradeRow
unfolding closed_trades
select_recent_closed_trades bot table limit = take limit (closed_trades bot table)

is_open : TradeRow → Bool
is_open r = elim r.status [ opened ↦ true | closed ↦ false ]

of_bot : Option ℕ → TradeRow → Bool
of_bot none r = true
of_bot (some bot) r = r.bot_id == bot

-- `SELECT count(*)` of the open trades of a bot, or of all with no bot given.
unfoldable pub count_open_trades : Option ℕ → List TradeRow → ℕ
unfolding is_open of_bot
count_open_trades bot [] = 0
count_open_trades bot (r ∷ rs) =
    (if of_bot bot r && is_open r then 1 else 0) + count_open_trades bot rs

unfoldable pub amount_since : ℕ → ℕ → TradeRow → ℤ
unfolding finalized
amount_since bot since r = elim (finalized bot r) [
  | none ↦ pos 0
  | some pnl ↦ if leb since r.closed_at then pnl else pos 0
]

-- `COALESCE(SUM(realized_pnl), 0)` over the trades closed at `since` or later.
unfoldable pub sum_realized_pnl_since : ℕ → ℕ → List TradeRow → ℤ
unfolding amount_since ◌+ℤ◌
sum_realized_pnl_since bot since [] = pos 0
sum_realized_pnl_since bot since (r ∷ rs) =
    amount_since bot since r +ℤ sum_realized_pnl_since bot since rs

-- The running sums from the oldest trade on, over a list that has the newest first: the sum of
-- all, and the greatest running sum (`none` over no rows).
pub record PnlCurve : Type 0 where
  pub current : ℤ
  pub peak : Option ℤ

unfoldable pub raise_peak : ℤ → Option ℤ → ℤ
raise_peak running none = running
raise_peak running (some p) = if ltb_ℤ p running then running else p

unfoldable pub pnl_curve : List ClosedTradeRow → PnlCurve
unfolding raise_peak
pnl_curve [] = record { current = pos 0; peak = none }
pnl_curve (r ∷ rs) =
    let older = pnl_curve rs in
    let running = older.current +ℤ r.realized_pnl in
    record { current = running; peak = some (raise_peak running older.peak) }

unfoldable pub coalesce : Option ℤ → ℤ
coalesce none = pos 0
coalesce (some a) = a

unfoldable pub select_pnl_peak_and_current : ℕ → List TradeRow → ℤ × ℤ
unfolding pnl_curve closed_trades coalesce
select_pnl_peak_and_current bot table =
    let curve = pnl_curve (closed_trades bot table) in (coalesce curve.peak, curve.current)
