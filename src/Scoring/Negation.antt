-- ===== src/Scoring/Negation.antt =====
-- packages/scoring/conditions: how the conditions of one rule relate to one another.
use scalper_v.Base.{◌≡◌, refl, ap, ◌∙◌, true, false}
use scalper_v.Scoring.{
  Evaluation, returned, raised, RuleContext, Conditions, all_of, any_of, negated, nil, cons,
  evaluate, evaluate_all, evaluate_any, negate, and_step, or_step,
}

-- The conditions with `not` before each.
unfoldable pub each_negated : Conditions → Conditions
each_negated nil = nil
each_negated (cons sub rest) = cons (negated sub) (each_negated rest)

negate-and_step : (a b : Evaluation) → negate (and_step a b) ≡ or_step (negate a) (negate b)
negate-and_step (returned true e) b = refl
negate-and_step (returned false e) b = refl
negate-and_step raised b = refl

negate-evaluate_all :
    (cs : Conditions) (ctx : RuleContext)
    → negate (evaluate_all cs ctx) ≡ evaluate_any (each_negated cs) ctx
unfolding evaluate each_negated
negate-evaluate_all nil ctx = refl
negate-evaluate_all (cons sub rest) ctx =
    negate-and_step (evaluate sub ctx) (evaluate_all rest ctx)
    ∙ ap (or_step (negate (evaluate sub ctx))) (negate-evaluate_all rest ctx)

-- Whatever the conditions, series and plugin conditions included, which may raise: `not` of an
-- `and` is the `or` of their negations, with the same outcome, the same error and the same exception.
pub evaluate-negated :
    (cs : Conditions) (ctx : RuleContext)
    → evaluate (negated (all_of cs)) ctx ≡ evaluate (any_of (each_negated cs)) ctx
unfolding evaluate
evaluate-negated cs ctx = negate-evaluate_all cs ctx
