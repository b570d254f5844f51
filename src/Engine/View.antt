-- ===== src/Engine/View.antt =====
-- The ways in which the handler can leave a signal.
use scalper_v.Base.{
  ℕ, ◌-◌, ◌≡◌, ◌≢◌, refl, ◌⊎◌, inl, inr, true, false, Bool-cases, Option, none, some, ltb,
}
use scalper_v.Domain.{Side}
use scalper_v.Risk.KillSwitch.{KillSwitchTable}
use scalper_v.Risk.OppositeSide.{OppositeSideDecision, check_opposite_side}
use scalper_v.Risk.Cooldown.{check_cooldown}
use scalper_v.Risk.Caps.{check_concurrent_caps}
use scalper_v.Risk.LossLimit.{LossLimitDecision, check_daily_loss_limit}
use scalper_v.Risk.Drawdown.{DrawdownDecision, check_max_drawdown}
use scalper_v.Engine.{
  Signal, BotConfig, ScoringResult, Outcome, signal_id_unresolved, evaluator_crashed, dispatched,
  Env, Desk, side_of,
}
use scalper_v.Engine.Publish.{persist}
use scalper_v.Engine.Handler.{
  contains, select_signal_id, table, score, resolve, after_drawdown, after_loss_limit,
  after_opposite_side, gates, outside_filter, admit,
}

module _ (env : Env) (bot : BotConfig) (s : Signal) (d : Desk) where
  -- The daily loss gate of this call.
  abbrev pub loss_gate : KillSwitchTable × LossLimitDecision
  loss_gate = check_daily_loss_limit bot.bot_id (table env bot) env.now bot.risk d.latch

  -- The drawdown gate of this call, which reads the latch that the other has left.
  abbrev pub drawdown_gate : Option (KillSwitchTable × DrawdownDecision)
  drawdown_gate = check_max_drawdown bot.bot_id (table env bot) env.now bot.risk loss_gate.0

  -- Where a latch can come from.
  abbrev pub Latched : KillSwitchTable → Type 0
  Latched latch =
      (latch ≡ d.latch)
      ⊎ (latch ≡ loss_gate.0)
      ⊎ ((v : DrawdownDecision) × (drawdown_gate ≡ some (latch, v)))

  -- The first four gates let the signal pass.
  pub record Cleared (side : Side) : Type 0 where
    pub opposite : OppositeSideDecision
    pub opposite_some :
        check_opposite_side bot.bot_id env.positions bot.mode s.symbol side bot.risk ≡ some opposite
    pub opposite_open : opposite.active ≡ false
    pub cooled : (check_cooldown bot.bot_id (table env bot) env.now bot.risk).active ≡ false
    pub capped : (check_concurrent_caps bot.bot_id (table env bot) bot.risk).blocked ≡ false
    pub limited : loss_gate.1.blocked ≡ false

  -- Every gate lets the signal pass, and the last leaves this latch.
  pub record Passed (side : Side) : Type 0 where
    pub cleared : Cleared side
    pub latch : KillSwitchTable
    pub verdict : DrawdownDecision
    pub drawn : drawdown_gate ≡ some (latch, verdict)
    pub drawn_open : verdict.blocked ≡ false

  -- The books are as they were, but for the latch and the counters.
  abbrev pub Kept : Desk × Outcome → Type 0
  Kept (d', o) =
      Latched d'.latch
      × (d'.evaluations ≡ d.evaluations)
      × (d'.published ≡ d.published)
      × (o ≢ dispatched)

  -- Either the books are kept, or the signal has passed every gate and its evaluation is persisted.
  abbrev pub View : Option Side → Desk × Outcome → Type 0
  View side left =
      Kept left
      ⊎ ((some_side : Side) × (side ≡ some some_side)
          × (passed : Passed some_side) × (id : ℕ) × (r : ScoringResult) × (left
              ≡ persist env bot s some_side id r (record d { latch = passed.latch })))

  Latched-here : (side : Side) (passed : Passed side) → Latched passed.latch
  Latched-here side passed = inr (inr (passed.verdict, passed.drawn))

  score-View :
      (side : Side) (passed : Passed side) (id : ℕ)
      → View (some side) (score env bot s side id (record d { latch = passed.latch }))
  unfolding score
  score-View side passed id =
      elim (env.evaluate s)
        as (λ o. View (some side) (elim o [
          | none ↦ (record d { latch = passed.latch }, evaluator_crashed)
          | some r ↦ persist env bot s side id r (record d { latch = passed.latch })
        ])) [
          | none ↦ inl (Latched-here side passed, refl, refl, λ h. cc)
          | some r ↦ inr (side, refl, passed, id, r, refl)
        ]

  resolve-View :
      (side : Side) (passed : Passed side)
      → View (some side) (resolve env bot s side (record d { latch = passed.latch }))
  unfolding resolve
  resolve-View side passed =
      elim (select_signal_id s.idempotency_key (env.now - bot.max_signal_age) env.signals)
        as (λ o. View (some side) (elim o [
          | none ↦ (record d { latch = passed.latch }, signal_id_unresolved)
          | some id ↦ score env bot s side id (record d { latch = passed.latch })
        ])) [
          | none ↦ inl (Latched-here side passed, refl, refl, λ h. cc)
          | some id ↦ score-View side passed id
        ]

  after_drawdown-View :
      (side : Side) (o : Option (KillSwitchTable × DrawdownDecision))
      → Cleared side
      → drawdown_gate ≡ o
      → View (some side) (after_drawdown env bot s side (record d { latch = loss_gate.0 }) o)
  unfolding after_drawdown
  after_drawdown-View side none cleared e = inl (inr (inl refl), refl, refl, λ h. cc)
  after_drawdown-View side (some (latch, v)) cleared e = elim (Bool-cases v.blocked) [
    | inl shut ↦ rw shut (inl (inr (inr (v, e)), refl, refl, λ h. cc))
    | inr passes ↦ rw passes (
        resolve-View side (record {
          cleared = cleared;
          latch = latch;
          verdict = v;
          drawn = e;
          drawn_open = passes;
        }))
  ]

  after_loss_limit-View :
      (side : Side)
      → (loss_gate.1.blocked ≡ false → Cleared side)
      → View (some side) (after_loss_limit env bot s side d loss_gate)
  unfolding after_loss_limit
  after_loss_limit-View side clear = elim (Bool-cases loss_gate.1.blocked) [
    | inl shut ↦ rw shut (inl (inr (inl refl), refl, refl, λ h. cc))
    | inr passes ↦ rw passes (after_drawdown-View side drawdown_gate (clear passes) refl)
  ]

  after_opposite_side-View :
      (side : Side) (o : Option OppositeSideDecision)
      → check_opposite_side bot.bot_id env.positions bot.mode s.symbol side bot.risk ≡ o
      → View (some side) (after_opposite_side env bot s side d o)
  unfolding after_opposite_side
  after_opposite_side-View side none e = inl (inl refl, refl, refl, λ h. cc)
  after_opposite_side-View side (some v) e = elim (Bool-cases v.active) [
    | inl shut ↦ rw shut (inl (inl refl, refl, refl, λ h. cc))
    | inr opens ↦
        elim (Bool-cases (check_cooldown bot.bot_id (table env bot) env.now bot.risk).active) [
          | inl shut ↦ rw (opens, shut) (inl (inl refl, refl, refl, λ h. cc))
          | inr cools ↦
              elim (Bool-cases
                (check_concurrent_caps bot.bot_id (table env bot) bot.risk).blocked) [
                  | inl shut ↦ rw (opens, cools, shut) (inl (inl refl, refl, refl, λ h. cc))
                  | inr caps ↦
                      rw (opens, cools, caps)
                        (after_loss_limit-View side (λ limit. record {
                          opposite = v;
                          opposite_some = e;
                          opposite_open = opens;
                          cooled = cools;
                          capped = caps;
                          limited = limit;
                        }))
                ]
        ]
  ]

  gates-View : (o : Option Side) → View o (gates env bot s o d)
  unfolding gates
  gates-View none = inl (inl refl, refl, refl, λ h. cc)
  gates-View (some side) = after_opposite_side-View side _ refl

  -- The signal is fresh, and inside the universe and the sources of the bot.
  abbrev pub Admits : Type 0
  Admits =
      (ltb s.expires_at env.now ≡ false)
      × (contains s.symbol bot.symbols ≡ true)
      × (outside_filter bot.source_filter s.source ≡ false)

  pub admit-View : Kept (admit env bot s d) ⊎ (Admits × View (side_of s.action) (admit env bot s d))
  unfolding admit
  admit-View = elim (Bool-cases (ltb s.expires_at env.now)) [
    | inl late ↦ inl (rw late (inl refl, refl, refl, λ h. cc))
    | inr fresh ↦ elim (Bool-cases (contains s.symbol bot.symbols)) [
      | inr outside ↦ inl (rw (fresh, outside) (inl refl, refl, refl, λ h. cc))
      | inl inside ↦ elim (Bool-cases (outside_filter bot.source_filter s.source)) [
        | inl filtered ↦ inl (rw (fresh, inside, filtered) (inl refl, refl, refl, λ h. cc))
        | inr sourced ↦
            inr (
              (fresh, inside, sourced),
              rw (fresh, inside, sourced) (gates-View (side_of s.action)),
            )
      ]
    ]
  ]
