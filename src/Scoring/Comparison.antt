-- ===== src/Scoring/Comparison.antt =====
-- packages/scoring/conditions/simple.py: which comparisons are inverse to each other, and what a
-- range is.
use scalper_v.Base.{arith, ◌≡◌, refl, ap, Bool, true, false, not, ◌&&◌, Option, none, some}
use scalper_v.Scoring.{
  Evaluation, returned, raised, RuleContext, Constant, number, truth, equals, not_equals, gt, gte,
  lt, lte, between, all_of, nil, cons, evaluate, found, FeatureValue, value_num, value_bool,
  value_json, on_num, equality, and_step,
}
use scalper_v.Decimal.{Decimal, ◌<?◌, ◌≤?◌}
use scalper_v.Decimal.Order.{<?-not}

-- The other outcome, unless there is an error.
unfoldable pub inverted : Evaluation → Evaluation
inverted (returned outcome none) = returned (not outcome) none
inverted (returned outcome (some error)) = returned outcome (some error)
inverted raised = raised

-- The outcome alone: none for an exception.
unfoldable pub outcome_of : Evaluation → Option Bool
outcome_of (returned outcome error) = some outcome
outcome_of raised = none

inverted-equality :
    (v : Constant) (ctx : RuleContext) (value : Option FeatureValue)
    → inverted (equality (λ b. b) v ctx value) ≡ equality not v ctx value
unfolding inverted
inverted-equality (number d) ctx none = refl
inverted-equality (truth b) ctx none = refl
inverted-equality (number d) ctx (some (value_num e)) = refl
inverted-equality (number d) ctx (some (value_bool c)) = refl
inverted-equality (number d) ctx (some value_json) = refl
inverted-equality (truth b) ctx (some (value_num e)) = refl
inverted-equality (truth b) ctx (some (value_bool c)) = refl
inverted-equality (truth b) ctx (some value_json) = refl

inverted-on_num :
    (p q : Decimal → Bool)
    → ((d : Decimal) → not (p d) ≡ q d)
    → (ctx : RuleContext) (value : Option FeatureValue)
    → inverted (on_num p ctx value) ≡ on_num q ctx value
unfolding inverted
inverted-on_num p q h ctx none = refl
inverted-on_num p q h ctx (some (value_num d)) = ap (λ b. returned b none) (h d)
inverted-on_num p q h ctx (some (value_bool b)) = refl
inverted-on_num p q h ctx (some value_json) = refl

not-<? : (a b : Decimal) → not (a <? b) ≡ (b ≤? a)
not-<? a b = ground (arith, <?-not a b)

-- For every bound, constant and context: `lte` is the inverse of `gt`, `gte` of `lt` and
-- `not_equals` of `equals`. A missing feature or one of another kind is the same error to both, and
-- then neither holds.
pub evaluate-inverted :
    (bound : Decimal) (v : Constant) (ctx : RuleContext)
    → (inverted (evaluate (gt bound) ctx) ≡ evaluate (lte bound) ctx)
      × (inverted (evaluate (lt bound) ctx) ≡ evaluate (gte bound) ctx)
      × (inverted (evaluate (equals v) ctx) ≡ evaluate (not_equals v) ctx)
unfolding evaluate
evaluate-inverted bound v ctx = (
  inverted-on_num _ _ (λ d. not-<? bound d) ctx (found ctx),
  inverted-on_num _ _ (λ d. not-<? d bound) ctx (found ctx),
  inverted-equality v ctx (found ctx),
)

outcome-range :
    (a b : Bool)
    → outcome_of (returned (a && b) none)
      ≡ outcome_of (and_step (returned a none) (and_step (returned b none) (returned true none)))
unfolding outcome_of
outcome-range true true = refl
outcome-range true false = refl
outcome-range false b = refl

ranged :
    (lo hi : Decimal) (ctx : RuleContext) (value : Option FeatureValue)
    → outcome_of (on_num (λ d. (lo ≤? d) && (d ≤? hi)) ctx value)
      ≡ outcome_of (
          and_step
            (on_num (λ d. lo ≤? d) ctx value)
            (and_step (on_num (λ d. d ≤? hi) ctx value) (returned true none)))
unfolding outcome_of
ranged lo hi ctx none = refl
ranged lo hi ctx (some (value_num d)) = outcome-range (lo ≤? d) (d ≤? hi)
ranged lo hi ctx (some (value_bool b)) = refl
ranged lo hi ctx (some value_json) = refl

-- For every range and context: the outcome of `between` is that of the `and` of `gte` and `lte`.
-- The errors differ, since an `and` drops those of its parts.
pub evaluate-between :
    (lo hi : Decimal) (ctx : RuleContext)
    → outcome_of (evaluate (between lo hi) ctx)
      ≡ outcome_of (evaluate (all_of (cons (gte lo) (cons (lte hi) nil))) ctx)
unfolding evaluate outcome_of
evaluate-between lo hi ctx = ranged lo hi ctx (found ctx)
