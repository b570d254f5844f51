-- ===== src/Scoring/Examples.antt =====
-- packages/scoring: a bot with a rule on an average and one on a feature that is not there.
use scalper_v.Base.{
  ℕ, ◌≡◌, ◌↔◌, List, refl, ◌==◌, true, false, if◌then◌else◌, none, some, [], ◌∷◌, All,
}
use scalper_v.Base.Int.{pos}
use scalper_v.Decimal.{Decimal, int, ◌<?◌, ◌=?◌}
use scalper_v.Scoring.{
  feature_missing, not_numeric, feature_history_too_short, FeatureValue, value_num, value_bool,
  value_json, RuleContext, returned, number, truth, Condition, equals, gt, lt, gte, lte, between,
  is_in, all_of, any_of, negated, not_equals, nil, cons,
}
use scalper_v.Scoring
use scalper_v.Scoring.Negation.{each_negated, evaluate-negated}
use scalper_v.Scoring.Comparison.{inverted, evaluate-inverted}
use scalper_v.Scoring.Series.{rising, falling, ema_stack, Ascends, LastSamples, rising-Ascends}
use scalper_v.Scoring.Float.{over_pow, zero_float, at_least}
use scalper_v.Scoring.Resolver.{
  reject_rule, ScoringRule, active, ScoringConfig, Source, missing_path, resolve_feature,
}
use scalper_v.Scoring.Evaluator.{outcome_true, missing, execute, ScoringResult, evaluate}
use scalper_v.Scoring.Loop.{Clear}
use scalper_v.Scoring.Executed.{Justified, evaluate-Justified}
use scalper_v.Scoring.Completed.{Completes, evaluate-Completes}

abbrev ctx : RuleContext
ctx = record {
  feature_snapshot = (7, value_num (int (pos 12))) ∷ [];
  feature_ref = 7;
  feature_history = [];
}

evaluate-negated_example :
    Scoring.evaluate
      (negated (all_of (cons (gt (int (pos 10))) (cons (equals (truth true)) nil))))
      ctx
    ≡ Scoring.evaluate
        (any_of (each_negated (cons (gt (int (pos 10))) (cons (equals (truth true)) nil))))
        ctx
evaluate-negated_example =
    evaluate-negated (cons (gt (int (pos 10))) (cons (equals (truth true)) nil)) ctx

evaluate-inverted_example :
    (inverted (Scoring.evaluate (gt (int (pos 10))) ctx)
      ≡ Scoring.evaluate (lte (int (pos 10))) ctx)
    × (inverted (Scoring.evaluate (lt (int (pos 10))) ctx)
        ≡ Scoring.evaluate (gte (int (pos 10))) ctx)
    × (inverted (Scoring.evaluate (equals (truth true)) ctx)
        ≡ Scoring.evaluate (not_equals (truth true)) ctx)
evaluate-inverted_example = evaluate-inverted (int (pos 10)) (truth true) ctx

-- The average has risen for three samples.
abbrev risen : RuleContext
risen = record ctx {
  feature_history =
      (
        7,
        value_bool true
            ∷ value_num (int (pos 10))
            ∷ value_num (int (pos 11))
            ∷ value_num (int (pos 12))
            ∷ [],
      )
      ∷ [];
}

rising-Ascends_example :
    Scoring.evaluate (rising 3) risen ≡ returned true none
    ↔ ((ds : List Decimal) × (LastSamples 3 risen ds × Ascends ds))
rising-Ascends_example = rising-Ascends 3 risen

rising-three : Scoring.evaluate (rising 3) risen ≡ returned true none
unfolding Scoring.evaluate rising
rising-three = refl

rising-four : Scoring.evaluate (rising 4) risen ≡ returned false (some (not_numeric none))
unfolding Scoring.evaluate rising
rising-four = refl

falling-three : Scoring.evaluate (falling 3) risen ≡ returned false none
unfolding Scoring.evaluate falling
falling-three = refl

falling-five :
    Scoring.evaluate (falling 5) risen ≡ returned false (some (feature_history_too_short 4 5))
unfolding Scoring.evaluate falling
falling-five = refl

ema_stack-missing :
    Scoring.evaluate (ema_stack 7 8 9 true) risen ≡ returned false (some (feature_missing 8))
unfolding Scoring.evaluate ema_stack
ema_stack-missing = refl

-- `True in [Decimal("1")]` holds in Python.
mixed_list :
    Scoring.evaluate
      (is_in (truth false) (number (int (pos 1)) ∷ []))
      (record ctx { feature_snapshot = (7, value_bool true) ∷ [] })
    ≡ returned true none
unfolding Scoring.evaluate ◌=?◌
mixed_list = refl

abbrev rule_on : ℕ → Condition → ScoringRule
rule_on feature condition = record {
  name = feature;
  weight = over_pow (pos 3) 1;
  feature = feature;
  condition = condition;
  on_error = reject_rule;
  required = false;
  max_staleness_sec = none;
}

abbrev config : ScoringConfig
config = record {
  mode = active;
  trigger_threshold = over_pow (pos 5) 2;
  rules = rule_on 7 (gt (int (pos 10))) ∷ rule_on 8 (equals (truth true)) ∷ [];
}

-- A minute old, at an interval of a minute.
abbrev source : Source
source = record {
  substitute = λ feature. feature;
  interval = λ ref. some 60;
  kv = λ ref.
      if ref == 7
      then some (record { value = value_num (int (pos 12)); computed_at = 1_000_000 })
      else none;
  db = λ ref. none;
  db_history = λ ref n. [];
  now = 61_000_000;
}

abbrev result : ScoringResult
result = record {
  decision = execute;
  reason = none;
  threshold = over_pow (pos 5) 2;
  progress = record {
    rule_results =
        record {
          name = 7;
          weight = over_pow (pos 3) 1;
          applied_weight = over_pow (pos 3) 1;
          result = outcome_true;
          error = none;
        }
        ∷ record {
          name = 8;
          weight = over_pow (pos 3) 1;
          applied_weight = zero_float;
          result = missing;
          error = some (missing_path 8);
        }
        ∷ [];
    feature_snapshot = (7, value_num (int (pos 12))) ∷ [];
    total_score = over_pow (pos 3) 1;
    failed_open = 8 ∷ [];
  };
}

evaluated : evaluate source config ≡ some result
unfolding evaluate Scoring.evaluate at_least ◌<?◌
evaluated = refl

clear : All (Clear source) config.rules
unfolding Clear resolve_feature Scoring.evaluate ◌<?◌
clear = (tt, (refl, tt))

evaluate-Justified_example : Justified source config result execute
evaluate-Justified_example = evaluate-Justified source config result evaluated

evaluate-Completes_example : Completes source config (evaluate source config)
evaluate-Completes_example = evaluate-Completes source config clear
