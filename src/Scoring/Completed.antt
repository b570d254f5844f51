-- ===== src/Scoring/Completed.antt =====
-- packages/scoring/evaluator.py: the loop comes to its end when no rule stops it.
use scalper_v.Base.{
  ◌≡◌, refl, ap, ◌∙◌, Bool, true, false, if◌then◌else◌, Option, none, some, List, [], ◌∷◌, All,
}
use scalper_v.Scoring.{Evaluation, returned, raised}
use scalper_v.Scoring.Float.{Float, zero_float, at_least}
use scalper_v.Scoring.Resolver.{
  OnError, skip, reject_rule, ScoringRule, ScoringConfig, ScoringMode, active, passthrough, Source,
  ResolverResult, ok, data_missing, data_stale, malformed, resolve_feature,
}
use scalper_v.Scoring.Evaluator.{
  Progress, ScoringResult, Decision, execute, reject, pass_through, RuleStep, continue, early,
  raising, evaluate_rule, loop, decide_by_mode, evaluate, nothing_yet, after_resolve,
  after_condition, unavailable, on_raise, ScoringReason, RuleResult,
}
use scalper_v.Scoring.Loop.{Clear, ClearEvaluation, ClearResult, LoopKept, loop-Kept, sum_from}

Goes : RuleStep → Type 0
Goes (continue q) = Unit
Goes (early r) = ⊥
Goes raising = ⊥

unavailable-Goes :
    (b : Bool) (threshold : Float) (why : ScoringReason) (rule : ScoringRule) (rr : RuleResult)
    → (p : Progress) → b ≡ false
    → Goes (unavailable b threshold why rule rr p)
unfolding Goes unavailable
unavailable-Goes true threshold why rule rr p h = cc h
unavailable-Goes false threshold why rule rr p h = tt

on_raise-Goes :
    (o : OnError) (threshold : Float) (rule : ScoringRule) (rr : RuleResult) (p : Progress)
    → o ≡ skip
    → Goes (on_raise o threshold rule rr p)
unfolding Goes on_raise
on_raise-Goes skip threshold rule rr p h = tt
on_raise-Goes reject_rule threshold rule rr p h = cc h

after_condition-Goes :
    (threshold : Float) (rule : ScoringRule) (p : Progress) (e : Evaluation)
    → ClearEvaluation rule e
    → Goes (after_condition threshold rule p e)
unfolding Goes after_condition ClearEvaluation
after_condition-Goes threshold rule p (returned outcome error) c = tt
after_condition-Goes threshold rule p raised c = on_raise-Goes rule.on_error threshold rule _ p c

after_resolve-Goes :
    (src : Source) (threshold : Float) (rule : ScoringRule) (p : Progress) (result : ResolverResult)
    → ClearResult src rule result
    → Goes (after_resolve src threshold rule p result)
unfolding after_resolve Goes ClearResult
after_resolve-Goes src threshold rule p (ok value) c = after_condition-Goes threshold rule _ _ c
after_resolve-Goes src threshold rule p (data_missing error) c =
    unavailable-Goes rule.required threshold _ rule _ p c
after_resolve-Goes src threshold rule p (data_stale error) c =
    unavailable-Goes rule.required threshold _ rule _ p c
after_resolve-Goes src threshold rule p malformed c = c

evaluate_rule-Goes :
    (src : Source) (threshold : Float) (rule : ScoringRule) (p : Progress)
    → Clear src rule
    → Goes (evaluate_rule src threshold rule p)
unfolding evaluate_rule Clear
evaluate_rule-Goes src threshold rule p c =
    after_resolve-Goes src threshold rule p (resolve_feature src rule) c

step-Goes :
    (src : Source) (threshold : Float) (rules : List ScoringRule) (step : RuleStep)
    → ((q : Progress) → Goes (loop src threshold rules q))
    → Goes step
    → Goes (elim step [
      | continue q ↦ loop src threshold rules q
      | early r ↦ early r
      | raising ↦ raising
    ])
unfolding Goes
step-Goes src threshold rules (continue q) ih g = ih q
step-Goes src threshold rules (early r) ih g = g
step-Goes src threshold rules raising ih g = g

loop-Goes :
    (src : Source) (threshold : Float) (rules : List ScoringRule) (p : Progress)
    → All (Clear src) rules
    → Goes (loop src threshold rules p)
unfolding loop Goes
loop-Goes src threshold [] p c = tt
loop-Goes src threshold (rule ∷ rules) p c =
    step-Goes src threshold rules _ (λ q. loop-Goes src threshold rules q c.1)
      (evaluate_rule-Goes src threshold rule p c.0)

-- The decision by the mode and the sum of the weights.
unfoldable pub decision_by : ScoringMode → Bool → Decision
decision_by passthrough reached = pass_through
decision_by active reached = if reached then execute else reject

-- A call that returns, with the sum and the decision that belong to the rules.
unfoldable pub Completes : Source → ScoringConfig → Option ScoringResult → Type 0
unfolding sum_from decision_by at_least
Completes src config returns =
    let sum = sum_from src zero_float config.rules in
    (r : ScoringResult) × (returns ≡ some r)
    × (r.progress.total_score ≡ sum)
    × (r.decision ≡ decision_by config.mode (at_least sum config.trigger_threshold))

either-decision :
    (b : Bool) (x y : ScoringResult)
    → (if b then x else y).decision ≡ (if b then x.decision else y.decision)
either-decision true x y = refl
either-decision false x y = refl

either-progress :
    (b : Bool) (x y : ScoringResult) (p : Progress)
    → x.progress ≡ p
    → y.progress ≡ p
    → (if b then x else y).progress ≡ p
either-progress true x y p h k = h
either-progress false x y p h k = k

decide_by_mode-decision :
    (mode : ScoringMode) (threshold : Float) (p : Progress)
    → (decide_by_mode mode threshold p).decision
      ≡ decision_by mode (at_least p.total_score threshold)
unfolding decide_by_mode decision_by
decide_by_mode-decision passthrough threshold p = refl
decide_by_mode-decision active threshold p = either-decision (at_least p.total_score threshold) _ _

decide_by_mode-progress :
    (mode : ScoringMode) (threshold : Float) (p : Progress)
    → (decide_by_mode mode threshold p).progress ≡ p
unfolding decide_by_mode
decide_by_mode-progress passthrough threshold p = refl
decide_by_mode-progress active threshold p =
    either-progress (at_least p.total_score threshold) _ _ p refl refl

step-Completes :
    (src : Source) (config : ScoringConfig) (step : RuleStep)
    → Goes step
    → LoopKept src config.rules zero_float step
    → Completes src config (elim step [
      | continue p ↦ some (decide_by_mode config.mode config.trigger_threshold p)
      | early r ↦ some r
      | raising ↦ none
    ])
unfolding Goes LoopKept Completes
step-Completes src config (continue p) g k =
    let t = config.trigger_threshold in
    (
      decide_by_mode config.mode t p,
      refl,
      ap (λ q. q.total_score) (decide_by_mode-progress config.mode t p) ∙ k.1,
      decide_by_mode-decision config.mode t p
          ∙ ap (λ s. decision_by config.mode (at_least s t)) k.1,
    )
step-Completes src config (early r) g k = absurd g
step-Completes src config raising g k = absurd g

-- For every source and configuration in which each rule is clear, that is its reference parses, its
-- feature is there or not required, and its condition does not raise or the rule is skipped on
-- errors: `evaluate` returns, with the weights of the rules whose condition holds added in order,
-- and its decision is the mode's, in active mode whether that sum reaches the threshold.
pub evaluate-Completes :
    (src : Source) (config : ScoringConfig)
    → All (Clear src) config.rules
    → Completes src config (evaluate src config)
unfolding evaluate
evaluate-Completes src config c =
    step-Completes src config (loop src config.trigger_threshold config.rules nothing_yet)
      (loop-Goes src config.trigger_threshold config.rules nothing_yet c)
      (loop-Kept src config.trigger_threshold config.rules nothing_yet)
