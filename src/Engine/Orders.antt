-- ===== src/Engine/Orders.antt =====
-- What stands behind a signal whose evaluation the handler acts on, and where it raises.
use scalper_v.Base.{
  ℕ, ◌+◌, ◌≤◌, ◌<◌, ◌≡◌, ◌≢◌, refl, ap, ap₂, ◌∙◌, ◌⊎◌, inl, inr, arith, true, false, none, some,
  List, ltb,
}
use scalper_v.Domain.{Side, paper}
use scalper_v.Risk.Trades.{RiskSection, count_open_trades}
use scalper_v.Risk.OppositeSide.{
  PositionRow, positions_of, select_open_position_side, check_opposite_side, flip,
  check_opposite_side-judges, migrated,
}
use scalper_v.Risk.Caps.{check_concurrent_caps-passes}
use scalper_v.Risk.Latch.{Holds, LimitEnabled}
use scalper_v.Risk.Verdicts.{Breached, check_daily_loss_limit-blocks}
use scalper_v.Engine.{Signal, BotConfig, dispatched, raised, Env, Desk, side_of}
use scalper_v.Engine.Handler.{
  contains, outside_filter, table, gates, admit, handle, after_opposite_side,
}
use scalper_v.Engine.View.{Passed, Admits, admit-View}

-- What the gates guarantee of a signal that opens on a side, at the state that the call found.
pub record IsSafe (env : Env) (bot : BotConfig) (s : Signal) (d : Desk) (side : Side) : Type 0 where
  pub fresh : env.now ≤ s.expires_at
  pub inside : contains s.symbol bot.symbols ≡ true
  pub not_against :
      (rows : List PositionRow)
      → bot.risk.block_opposite_side ≡ true
      → positions_of bot.mode env.positions ≡ some rows
      → select_open_position_side bot.bot_id s.symbol rows ≢ some (flip side)
  pub own_cap :
      0 < bot.risk.max_open_trades_per_bot
      → count_open_trades (some bot.bot_id) (table env bot) + 1 ≤ bot.risk.max_open_trades_per_bot
  pub global_cap :
      0 < bot.risk.max_open_trades_global
      → count_open_trades none (table env bot) + 1 ≤ bot.risk.max_open_trades_global
  pub within_limit :
      LimitEnabled bot.risk
      → Holds env.now d.latch ⊎ Breached bot.bot_id (table env bot) env.now bot.risk
      → ⊥

Passed-IsSafe :
    (env : Env) (bot : BotConfig) (s : Signal) (d : Desk) (side : Side)
    → Admits env bot s d
    → Passed env bot s d side
    → IsSafe env bot s d side
Passed-IsSafe env bot s d side admits passed =
    let clear = passed.cleared in
    let caps = (check_concurrent_caps-passes bot.bot_id (table env bot) bot.risk).0 clear.capped in
    record {
      fresh = ground (arith, admits.0);
      inside = admits.1;
      not_against = λ rows on there against.
          let (v, e, active) =
            check_opposite_side-judges bot.bot_id env.positions bot.mode s.symbol side bot.risk rows
              on there in
          cc (e, clear.opposite_some, clear.opposite_open, active.1 against);
      own_cap = caps.0;
      global_cap = caps.1;
      within_limit = λ on held. cc (
        clear.limited,
        (check_daily_loss_limit-blocks bot.bot_id (table env bot) env.now bot.risk d.latch on).1
            held,
      );
    }

-- If the handler acts on a signal, the signal opens on a side, has not expired and is in the universe
-- of the bot; with the guard on and its table there, the bot holds no position on the other side; with
-- one more trade, each cap that is set is kept; and with the daily limit on, no latch held at the call
-- and today's result has not reached the limit.
pub handle-IsSafe :
    (env : Env) (bot : BotConfig) (s : Signal) (d : Desk)
    → (handle env bot (some s) d).1 ≡ dispatched
    → (side : Side) × (side_of s.action ≡ some side) × IsSafe env bot s d side
unfolding handle
handle-IsSafe env bot s d acted = elim (admit-View env bot s d) [
  | inl kept ↦ absurd (kept.3 acted)
  | inr (admits, inl kept) ↦ absurd (kept.3 acted)
  | inr (admits, inr (side, opens, passed, id, r, left)) ↦
      (side, opens, Passed-IsSafe env bot s d side admits passed)
]

check_opposite_side-raises :
    (bot symbol : ℕ) (side : Side) (risk : RiskSection) (rows : List PositionRow)
    → risk.block_opposite_side ≡ true
    → check_opposite_side bot (migrated rows) paper symbol side risk ≡ none
unfolding check_opposite_side
check_opposite_side-raises bot symbol side risk rows on = ground arith

admit-gates :
    (env : Env) (bot : BotConfig) (s : Signal) (d : Desk)
    → ltb s.expires_at env.now ≡ false
    → contains s.symbol bot.symbols ≡ true
    → outside_filter bot.source_filter s.source ≡ false
    → admit env bot s d ≡ gates env bot s (side_of s.action) d
unfolding admit
admit-gates env bot s d fresh inside sourced = rw (fresh, inside, sourced) refl

-- A paper bot with the guard on, over the tables that the migrations create: every signal that passes
-- the filters and opens on a side makes the handler raise, with nothing changed.
pub handle-paper_raises :
    (env : Env) (bot : BotConfig) (s : Signal) (d : Desk) (side : Side) (rows : List PositionRow)
    → bot.mode ≡ paper
    → bot.risk.block_opposite_side ≡ true
    → env.positions ≡ migrated rows
    → ltb s.expires_at env.now ≡ false
    → contains s.symbol bot.symbols ≡ true
    → outside_filter bot.source_filter s.source ≡ false
    → side_of s.action ≡ some side
    → handle env bot (some s) d ≡ (d, raised)
unfolding handle gates after_opposite_side
handle-paper_raises env bot s d side rows mode on tables fresh inside sourced opens =
    admit-gates env bot s d fresh inside sourced
    ∙ ap (λ o. gates env bot s o d) opens
    ∙ ap (after_opposite_side env bot s side d) (
        ap₂ (λ ts m. check_opposite_side bot.bot_id ts m s.symbol side bot.risk) tables mode
        ∙ check_opposite_side-raises bot.bot_id s.symbol side bot.risk rows on)
