-- ===== src/Scoring/Executed.antt =====
-- packages/scoring/evaluator.py: what an execution rests on.
use scalper_v.Base.{
  ◌≡◌, refl, sym, subst, if◌then◌else◌, Bool, true, false, Option, none, some, All,
}
use scalper_v.Scoring.Float.{zero_float, at_least}
use scalper_v.Scoring.Resolver.{ScoringConfig, active, passthrough, Source, ScoringMode}
use scalper_v.Scoring.Evaluator.{
  Progress, ScoringResult, Decision, execute, reject, pass_through, RuleStep, continue, early,
  raising, loop, decide_by_mode, evaluate, nothing_yet, concluded, score_below_threshold,
  ScoringReason,
}
use scalper_v.Scoring.Loop.{Clear, sum_from, Rejects, LoopKept, loop-Kept}

-- What a result says: on an execution of what it rests on, else whether it gives a reason.
unfoldable pub Justified : Source → ScoringConfig → ScoringResult → Decision → Type 0
unfolding sum_from Clear
Justified src config r execute =
    (config.mode ≡ active)
    × All (Clear src) config.rules
    × (r.progress.total_score ≡ sum_from src zero_float config.rules)
    × (at_least r.progress.total_score config.trigger_threshold ≡ true)
    × (r.reason ≡ none)
Justified src config r pass_through = (config.mode ≡ passthrough) × (r.reason ≡ none)
Justified src config r reject = (why : ScoringReason) × (r.reason ≡ some why)

active-Justified :
    (src : Source) (config : ScoringConfig) (p : Progress) (b : Bool)
    → config.mode ≡ active
    → at_least p.total_score config.trigger_threshold ≡ b
    → All (Clear src) config.rules
    → p.total_score ≡ sum_from src zero_float config.rules
    → let r =
        (if b
          then concluded config.trigger_threshold execute none p
          else concluded config.trigger_threshold reject (some score_below_threshold) p) in
      Justified src config r r.decision
unfolding Justified
active-Justified src config p true m h c t = (m, c, t, h, refl)
active-Justified src config p false m h c t = (_, refl)

decide_by_mode-Justified :
    (src : Source) (config : ScoringConfig) (p : Progress) (mode : ScoringMode)
    → config.mode ≡ mode
    → All (Clear src) config.rules
    → p.total_score ≡ sum_from src zero_float config.rules
    → let r = decide_by_mode mode config.trigger_threshold p in Justified src config r r.decision
unfolding Justified decide_by_mode
decide_by_mode-Justified src config p active m c t = active-Justified src config p _ m refl c t
decide_by_mode-Justified src config p passthrough m c t = (m, refl)

Returns : Source → ScoringConfig → Option ScoringResult → Type 0
unfolding Justified
Returns src config none = Unit
Returns src config (some r) = Justified src config r r.decision

rejected-Justified :
    (src : Source) (config : ScoringConfig) (r : ScoringResult)
    → Rejects r
    → Justified src config r r.decision
unfolding Justified
rejected-Justified src config r h = subst (Justified src config r) (sym h.0) h.1

step-Returns :
    (src : Source) (config : ScoringConfig) (step : RuleStep)
    → LoopKept src config.rules zero_float step
    → Returns src config (elim step [
      | continue p ↦ some (decide_by_mode config.mode config.trigger_threshold p)
      | early r ↦ some r
      | raising ↦ none
    ])
unfolding LoopKept Returns
step-Returns src config (continue p) k =
    decide_by_mode-Justified src config p config.mode refl k.0 k.1
step-Returns src config (early r) k = rejected-Justified src config r k
step-Returns src config raising k = tt

-- Whatever the source and the configuration, if `evaluate` returns a result. A signal is executed
-- only in active mode, when no rule of the bot lacks a feature that it requires or raises where it
-- rejects on errors, and when the weights of the rules whose condition holds, added in order as
-- floats, reach the threshold. It passes through only in passthrough mode. A rejection has a
-- reason, and the other two have none.
pub evaluate-Justified :
    (src : Source) (config : ScoringConfig) (r : ScoringResult)
    → evaluate src config ≡ some r
    → Justified src config r r.decision
unfolding evaluate Returns
evaluate-Justified src config r h = subst (Returns src config) h (
    step-Returns src config (loop src config.trigger_threshold config.rules nothing_yet)
      (loop-Kept src config.trigger_threshold config.rules nothing_yet))
