-- ===== src/Scoring/Evaluator.antt =====
-- packages/scoring/evaluator.py: the score of a signal.
use scalper_v.Base.{
  ℕ, ◌==◌, Bool, true, false, if◌then◌else◌, Option, none, some, List, [], ◌∷◌, ◌++◌,
}
use scalper_v.Scoring.{
  FeatureValue, ErrorInfo, Evaluation, returned, raised, RuleContext, Condition, external,
}
use scalper_v.Scoring
use scalper_v.Scoring.Float.{Float, zero_float, ◌+ᶠ◌, at_least}
use scalper_v.Scoring.Resolver.{
  OnError, ScoringRule, ScoringMode, ScoringConfig, Source, RuleError, ResolverResult,
  resolve_feature, skip, reject_rule, active, passthrough, of_condition, exception, ok,
  data_missing, data_stale, malformed,
}

pub data RuleOutcome : Type 0 where
  outcome_true outcome_false missing stale error_skipped : RuleOutcome

pub record RuleResult : Type 0 where
  pub name : ℕ
  pub weight : Float
  pub applied_weight : Float
  pub result : RuleOutcome
  pub error : Option RuleError

pub data Decision : Type 0 where
  execute reject pass_through : Decision

pub data ScoringReason : Type 0 where
  required_feature_missing required_feature_stale rule_error score_below_threshold : ScoringReason

-- What the loop has so far; `failed_open` is the warnings, by the names of the rules.
pub record Progress : Type 0 where
  pub rule_results : List RuleResult
  pub feature_snapshot : List (ℕ × FeatureValue)
  pub total_score : Float
  pub failed_open : List ℕ

pub record ScoringResult : Type 0 where
  pub decision : Decision
  pub reason : Option ScoringReason
  pub threshold : Float
  pub progress : Progress

-- After a rule: the loop goes on, `evaluate` returns early, or an exception leaves it.
pub data RuleStep : Type 0 where
  continue : Progress → RuleStep
  early : ScoringResult → RuleStep
  raising : RuleStep

-- `feature_snapshot[ref] = value`
abbrev pub put_feature : ℕ → FeatureValue → List (ℕ × FeatureValue) → List (ℕ × FeatureValue)
put_feature ref value [] = (ref, value) ∷ []
put_feature ref value ((key, old) ∷ rest) =
    let later = put_feature ref value rest in
    if key == ref then (key, value) ∷ rest else (key, old) ∷ later

abbrev pub unweighted : ScoringRule → RuleOutcome → RuleError → RuleResult
unweighted rule result error = record {
  name = rule.name;
  weight = rule.weight;
  applied_weight = zero_float;
  result = result;
  error = some error;
}

-- `_build_early_reject`, with the partial result appended
abbrev build_early_reject : Float → ScoringReason → RuleResult → Progress → ScoringResult
build_early_reject threshold why partial p = record {
  decision = reject;
  reason = some why;
  threshold = threshold;
  progress = record p { rule_results = p.rule_results ++ (partial ∷ []) };
}

-- The end of one pass of the loop in `evaluate`.
unfoldable pub accumulate : RuleResult → Progress → Progress
unfolding ◌+ᶠ◌
accumulate rr p = record p {
  rule_results = p.rule_results ++ (rr ∷ []);
  total_score = p.total_score +ᶠ rr.applied_weight;
}

abbrev fail_open : ScoringRule → Progress → Progress
fail_open rule p = record p { failed_open = p.failed_open ++ (rule.name ∷ []) }

unfoldable pub unavailable :
    Bool → Float → ScoringReason → ScoringRule → RuleResult → Progress → RuleStep
unfolding accumulate
unavailable true threshold why rule rr p = early (build_early_reject threshold why rr p)
unavailable false threshold why rule rr p = continue (accumulate rr (fail_open rule p))

unfoldable pub on_raise : OnError → Float → ScoringRule → RuleResult → Progress → RuleStep
unfolding accumulate
on_raise reject_rule threshold rule rr p = early (build_early_reject threshold rule_error rr p)
on_raise skip threshold rule rr p = continue (accumulate rr (fail_open rule p))

abbrev error_of : Option ErrorInfo → Option RuleError
error_of none = none
error_of (some info) = some (of_condition info)

abbrev pub judged : ScoringRule → Bool → Option ErrorInfo → RuleResult
judged rule outcome info = record {
  name = rule.name;
  weight = rule.weight;
  applied_weight = if outcome then rule.weight else zero_float;
  result = if outcome then outcome_true else outcome_false;
  error = error_of info;
}

unfoldable pub after_condition : Float → ScoringRule → Progress → Evaluation → RuleStep
unfolding accumulate on_raise
after_condition threshold rule p (returned outcome info) =
    continue (accumulate (judged rule outcome info) p)
after_condition threshold rule p raised =
    on_raise rule.on_error threshold rule (unweighted rule error_skipped exception) p

-- `_required_history_window`: only a series or plugin condition names one.
abbrev pub required_history_window : Condition → Option ℕ
required_history_window (external window call) = window
required_history_window other = none

abbrev history_of : Source → ℕ → Option ℕ → List (ℕ × List FeatureValue)
history_of src ref none = []
history_of src ref (some n) = elim (src.db_history ref n) [
  | [] ↦ []
  | (v ∷ vs) ↦ (ref, v ∷ vs) ∷ []
]

abbrev pub context : Source → ScoringRule → FeatureValue → RuleContext
context src rule value =
    let ref = src.substitute rule.feature in
    record {
      feature_snapshot = (ref, value) ∷ [];
      feature_ref = ref;
      feature_history = history_of src ref (required_history_window rule.condition);
    }

unfoldable pub after_resolve : Source → Float → ScoringRule → Progress → ResolverResult → RuleStep
unfolding unavailable after_condition Scoring.evaluate
after_resolve src threshold rule p (data_missing error) =
    unavailable rule.required threshold required_feature_missing rule
      (unweighted rule missing error) p
after_resolve src threshold rule p (data_stale error) =
    unavailable rule.required threshold required_feature_stale rule (unweighted rule stale error) p
after_resolve src threshold rule p malformed = raising
after_resolve src threshold rule p (ok value) =
    let seen = put_feature (src.substitute rule.feature) value p.feature_snapshot in
    after_condition threshold rule (record p { feature_snapshot = seen })
      (Scoring.evaluate rule.condition (context src rule value))

unfoldable pub evaluate_rule : Source → Float → ScoringRule → Progress → RuleStep
unfolding after_resolve resolve_feature
evaluate_rule src threshold rule p = after_resolve src threshold rule p (resolve_feature src rule)

unfoldable pub loop : Source → Float → List ScoringRule → Progress → RuleStep
unfolding evaluate_rule
loop src threshold [] p = continue p
loop src threshold (rule ∷ rules) p = elim (evaluate_rule src threshold rule p) [
  | continue q ↦ loop src threshold rules q
  | early r ↦ early r
  | raising ↦ raising
]

abbrev pub concluded : Float → Decision → Option ScoringReason → Progress → ScoringResult
concluded threshold decision reason p = record {
  decision = decision;
  reason = reason;
  threshold = threshold;
  progress = p;
}

unfoldable pub decide_by_mode : ScoringMode → Float → Progress → ScoringResult
unfolding at_least
decide_by_mode passthrough threshold p = concluded threshold pass_through none p
decide_by_mode active threshold p =
    if at_least p.total_score threshold
    then concluded threshold execute none p
    else concluded threshold reject (some score_below_threshold) p

abbrev pub nothing_yet : Progress
nothing_yet = record {
  rule_results = [];
  feature_snapshot = [];
  total_score = zero_float;
  failed_open = [];
}

-- None: an exception leaves `evaluate`.
unfoldable pub evaluate : Source → ScoringConfig → Option ScoringResult
unfolding loop decide_by_mode
evaluate src config = elim (loop src config.trigger_threshold config.rules nothing_yet) [
  | continue p ↦ some (decide_by_mode config.mode config.trigger_threshold p)
  | early r ↦ some r
  | raising ↦ none
]
