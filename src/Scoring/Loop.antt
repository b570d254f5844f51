-- ===== src/Scoring/Loop.antt =====
-- packages/scoring/evaluator.py: what one rule, and the loop over the rules, leaves.
use scalper_v.Base.{ℕ, ◌≡◌, refl, ◌∙◌, ap, Bool, true, false, some, List, [], ◌∷◌, All}
use scalper_v.Scoring.{FeatureValue, Evaluation, returned, raised}
use scalper_v.Scoring
use scalper_v.Scoring.Float.{Float, zero_float, ◌+ᶠ◌}
use scalper_v.Scoring.Resolver.{
  OnError, skip, reject_rule, ScoringRule, Source, ResolverResult, ok, data_missing, data_stale,
  malformed, resolve_feature, RuleError,
}
use scalper_v.Scoring.Evaluator.{
  Progress, ScoringResult, reject, RuleStep, continue, early, raising, evaluate_rule, loop, context,
  unweighted, after_resolve, after_condition, unavailable, on_raise, accumulate, ScoringReason,
  RuleResult, RuleOutcome,
}

-- A rule that does not keep a signal from being executed: its feature is there or not required,
-- and its condition does not raise, unless the rule is skipped on errors.
unfoldable pub ClearEvaluation : ScoringRule → Evaluation → Type 0
ClearEvaluation rule (returned outcome error) = Unit
ClearEvaluation rule raised = rule.on_error ≡ skip

unfoldable pub ClearResult : Source → ScoringRule → ResolverResult → Type 0
unfolding ClearEvaluation
ClearResult src rule (ok value) =
    ClearEvaluation rule (Scoring.evaluate rule.condition (context src rule value))
ClearResult src rule (data_missing error) = rule.required ≡ false
ClearResult src rule (data_stale error) = rule.required ≡ false
ClearResult src rule malformed = ⊥

unfoldable pub Clear : Source → ScoringRule → Type 0
unfolding ClearResult
Clear src rule = ClearResult src rule (resolve_feature src rule)

-- The weight of a rule whose condition holds of its feature, else zero.
unfoldable pub weight_of : ScoringRule → Evaluation → Float
weight_of rule (returned true error) = rule.weight
weight_of rule (returned false error) = zero_float
weight_of rule raised = zero_float

unfoldable pub contribution_of : Source → ScoringRule → ResolverResult → Float
unfolding weight_of
contribution_of src rule (ok value) =
    weight_of rule (Scoring.evaluate rule.condition (context src rule value))
contribution_of src rule (data_missing error) = zero_float
contribution_of src rule (data_stale error) = zero_float
contribution_of src rule malformed = zero_float

unfoldable pub contribution : Source → ScoringRule → Float
unfolding contribution_of
contribution src rule = contribution_of src rule (resolve_feature src rule)

-- The contributions, added in the order of the rules.
unfoldable pub sum_from : Source → Float → List ScoringRule → Float
unfolding contribution
sum_from src s [] = s
sum_from src s (rule ∷ rules) = sum_from src (s +ᶠ contribution src rule) rules

-- An early return.
abbrev pub Rejects : ScoringResult → Type 0
Rejects r = (r.decision ≡ reject) × ((why : ScoringReason) × (r.reason ≡ some why))

-- What is true of the end of a pass over a rule: on the way on the rule was clear, as `C` says, and
-- contributed `w`.
KeptBy : Type 0 → Float → Progress → RuleStep → Type 0
KeptBy C w p (continue q) = C × (q.total_score ≡ p.total_score +ᶠ w)
KeptBy C w p (early r) = Rejects r
KeptBy C w p raising = Unit

unavailable-Kept :
    (b : Bool) (threshold : Float) (why : ScoringReason) (rule : ScoringRule)
    → (result : RuleOutcome) (error : RuleError) (p : Progress)
    → KeptBy
        (b ≡ false)
        zero_float
        p
        (unavailable b threshold why rule (unweighted rule result error) p)
unfolding KeptBy unavailable accumulate
unavailable-Kept true threshold why rule result error p = (refl, (why, refl))
unavailable-Kept false threshold why rule result error p = (refl, refl)

on_raise-Kept :
    (o : OnError) (threshold : Float) (rule : ScoringRule) (rr : RuleResult) (p : Progress)
    → rr.applied_weight ≡ zero_float
    → KeptBy (o ≡ skip) zero_float p (on_raise o threshold rule rr p)
unfolding KeptBy on_raise accumulate
on_raise-Kept skip threshold rule rr p w = (refl, ap (λ x. p.total_score +ᶠ x) w)
on_raise-Kept reject_rule threshold rule rr p w = (refl, (_, refl))

after_condition-Kept :
    (threshold : Float) (rule : ScoringRule) (p : Progress) (seen : List (ℕ × FeatureValue))
    → (e : Evaluation)
    → KeptBy
        (ClearEvaluation rule e)
        (weight_of rule e)
        p
        (after_condition threshold rule (record p { feature_snapshot = seen }) e)
unfolding KeptBy after_condition accumulate ClearEvaluation weight_of
after_condition-Kept threshold rule p seen (returned true error) = (tt, refl)
after_condition-Kept threshold rule p seen (returned false error) = (tt, refl)
after_condition-Kept threshold rule p seen raised =
    on_raise-Kept rule.on_error threshold rule _ (record p { feature_snapshot = seen }) refl

after_resolve-Kept :
    (src : Source) (threshold : Float) (rule : ScoringRule) (p : Progress) (result : ResolverResult)
    → KeptBy
        (ClearResult src rule result)
        (contribution_of src rule result)
        p
        (after_resolve src threshold rule p result)
unfolding after_resolve KeptBy ClearResult contribution_of
after_resolve-Kept src threshold rule p (ok value) = after_condition-Kept threshold rule p _ _
after_resolve-Kept src threshold rule p (data_missing error) =
    unavailable-Kept rule.required threshold _ rule _ error p
after_resolve-Kept src threshold rule p (data_stale error) =
    unavailable-Kept rule.required threshold _ rule _ error p
after_resolve-Kept src threshold rule p malformed = tt

evaluate_rule-Kept :
    (src : Source) (threshold : Float) (rule : ScoringRule) (p : Progress)
    → KeptBy (Clear src rule) (contribution src rule) p (evaluate_rule src threshold rule p)
unfolding evaluate_rule Clear contribution
evaluate_rule-Kept src threshold rule p =
    after_resolve-Kept src threshold rule p (resolve_feature src rule)

-- The same of the whole loop.
unfoldable pub LoopKept : Source → List ScoringRule → Float → RuleStep → Type 0
LoopKept src rules s (continue q) = All (Clear src) rules × (q.total_score ≡ sum_from src s rules)
LoopKept src rules s (early r) = Rejects r
LoopKept src rules s raising = Unit

LoopKept-cons :
    (src : Source) (rule : ScoringRule) (rules : List ScoringRule) (s t : Float)
    → Clear src rule
    → t ≡ s +ᶠ contribution src rule
    → (end : RuleStep) → LoopKept src rules t end
    → LoopKept src (rule ∷ rules) s end
unfolding LoopKept sum_from
LoopKept-cons src rule rules s t c h (continue q) k =
    ((c, k.0), k.1 ∙ ap (λ x. sum_from src x rules) h)
LoopKept-cons src rule rules s t c h (early r) k = k
LoopKept-cons src rule rules s t c h raising k = k

step-Kept :
    (src : Source) (threshold : Float) (rule : ScoringRule) (rules : List ScoringRule)
    → (p : Progress) (step : RuleStep)
    → ((q : Progress) → LoopKept src rules q.total_score (loop src threshold rules q))
    → KeptBy (Clear src rule) (contribution src rule) p step
    → LoopKept src (rule ∷ rules) p.total_score (elim step [
      | continue q ↦ loop src threshold rules q
      | early r ↦ early r
      | raising ↦ raising
    ])
unfolding KeptBy LoopKept
step-Kept src threshold rule rules p (continue q) ih k =
    LoopKept-cons src rule rules _ _ k.0 k.1 (loop src threshold rules q) (ih q)
step-Kept src threshold rule rules p (early r) ih k = k
step-Kept src threshold rule rules p raising ih k = k

pub loop-Kept :
    (src : Source) (threshold : Float) (rules : List ScoringRule) (p : Progress)
    → LoopKept src rules p.total_score (loop src threshold rules p)
unfolding loop LoopKept sum_from
loop-Kept src threshold [] p = (tt, refl)
loop-Kept src threshold (rule ∷ rules) p =
    step-Kept src threshold rule rules p (evaluate_rule src threshold rule p)
      (loop-Kept src threshold rules) (evaluate_rule-Kept src threshold rule p)
