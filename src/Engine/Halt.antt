-- ===== src/Engine/Halt.antt =====
-- A bot that the drawdown gate has stopped trades no more.
use scalper_v.Base.{
  ℕ, ◌≡◌, refl, ap, ◌∙◌, inl, inr, arith, true, false, Option, none, some, List, [], ◌∷◌,
}
use scalper_v.Base.Int.{pos}
use scalper_v.Domain.{Side}
use scalper_v.Decimal.{int, ◌≤?◌}
use scalper_v.Risk.Trades.{RiskSection, TradeRow}
use scalper_v.Risk.KillSwitch.{max_drawdown, KillSwitchState, KillSwitchTable, is_stale_daily_latch}
use scalper_v.Risk.LossLimit.{check_daily_loss_limit}
use scalper_v.Risk.Drawdown.{check_max_drawdown, held}
use scalper_v.Risk.Latch.{loss_gate, step, step-held, drawdown_never_stale}
use scalper_v.Engine.{Signal, BotConfig, Env, Desk}
use scalper_v.Engine.Handler.{table, admit, handle, handle_all}
use scalper_v.Engine.View.{Latched, Kept, Passed, admit-View}

-- A latch of the maximum drawdown, while that gate is on.
pub record IsStopped (bot : BotConfig) (k : KillSwitchState) : Type 0 where
  pub tripped : k.tripped ≡ true
  pub reason : k.trip_reason ≡ some max_drawdown
  pub enabled : (bot.risk.max_drawdown_pct ≤? int (pos 0)) ≡ false

loss_gate-held :
    (bot : ℕ) (rows : List TradeRow) (now : ℕ) (risk : RiskSection) (k : KillSwitchState)
    → k.tripped ≡ true
    → k.trip_reason ≡ some max_drawdown
    → (check_daily_loss_limit bot rows now risk (some k)).0 ≡ some k
unfolding step
loss_gate-held bot rows now risk k t r =
    step-held (loss_gate bot rows now risk) k t (drawdown_never_stale k now r)

drawdown_gate-held :
    (bot : ℕ) (rows : List TradeRow) (now : ℕ) (risk : RiskSection) (k : KillSwitchState)
    → k.tripped ≡ true
    → is_stale_daily_latch k now ≡ false
    → (risk.max_drawdown_pct ≤? int (pos 0)) ≡ false
    → check_max_drawdown bot rows now risk (some k) ≡ some (some k, held risk.max_drawdown_pct k)
unfolding check_max_drawdown
drawdown_gate-held bot rows now risk k t s on = ground arith

-- The desk has stopped behind a latch.
abbrev pub Behind : KillSwitchState → Desk → Desk → Type 0
Behind k d d' =
    (d'.latch ≡ some k) × (d'.evaluations ≡ d.evaluations) × (d'.published ≡ d.published)

module _ (env : Env) (bot : BotConfig) (s : Signal) (d : Desk) (k : KillSwitchState)
    (stopped : IsStopped bot k) (there : d.latch ≡ some k) where
  loss_latch :
      (check_daily_loss_limit bot.bot_id (table env bot) env.now bot.risk d.latch).0 ≡ some k
  loss_latch =
      ap (λ l. (check_daily_loss_limit bot.bot_id (table env bot) env.now bot.risk l).0) there
      ∙ loss_gate-held bot.bot_id (table env bot) env.now bot.risk k stopped.tripped stopped.reason

  drawn_latch :
      check_max_drawdown bot.bot_id
        (table env bot)
        env.now
        bot.risk
        (check_daily_loss_limit bot.bot_id (table env bot) env.now bot.risk d.latch).0
      ≡ some (some k, held bot.risk.max_drawdown_pct k)
  drawn_latch =
      ap (check_max_drawdown bot.bot_id (table env bot) env.now bot.risk) loss_latch
      ∙ drawdown_gate-held bot.bot_id (table env bot) env.now bot.risk k stopped.tripped
          (drawdown_never_stale k env.now stopped.reason) stopped.enabled

  Latched-held : (latch : KillSwitchTable) → Latched env bot s d latch → latch ≡ some k
  Latched-held latch (inl e) = e ∙ there
  Latched-held latch (inr (inl e)) = e ∙ loss_latch
  Latched-held latch (inr (inr (v, e))) = cc (e, drawn_latch)

  not-Passed : (side : Side) → Passed env bot s d side → ⊥
  not-Passed side passed = cc (passed.drawn, passed.drawn_open, drawn_latch)

  Kept-Behind : Kept env bot s d (admit env bot s d) → Behind k d (admit env bot s d).0
  Kept-Behind kept = (Latched-held (admit env bot s d).0.latch kept.0, kept.1, kept.2)

  admit-Behind : Behind k d (admit env bot s d).0
  admit-Behind = elim (admit-View env bot s d) [
    | inl kept ↦ Kept-Behind kept
    | inr (admits, inl kept) ↦ Kept-Behind kept
    | inr (admits, inr (side, e, passed, id, r, left)) ↦ absurd (not-Passed side passed)
  ]

handle-Behind :
    (env : Env) (bot : BotConfig) (o : Option Signal) (d : Desk) (k : KillSwitchState)
    → IsStopped bot k
    → d.latch ≡ some k
    → Behind k d (handle env bot o d).0
unfolding handle
handle-Behind env bot none d k stopped there = (there, refl, refl)
handle-Behind env bot (some s) d k stopped there = admit-Behind env bot s d k stopped there

-- While the drawdown gate of a bot is on and its latch is one of the maximum drawdown, no signal in
-- any environment makes an evaluation or a message, and the latch stays.
pub handle_all-Behind :
    (bot : BotConfig) (es : List (Env × Option Signal)) (d : Desk) (k : KillSwitchState)
    → IsStopped bot k
    → d.latch ≡ some k
    → Behind k d (handle_all bot es d)
unfolding handle_all
handle_all-Behind bot [] d k stopped there = (there, refl, refl)
handle_all-Behind bot ((env, o) ∷ es) d k stopped there =
    let (latch, rows, messages) = handle-Behind env bot o d k stopped there in
    let (latch', rows', messages') =
      handle_all-Behind bot es (handle env bot o d).0 k stopped latch in
    (latch', rows' ∙ rows, messages' ∙ messages)
