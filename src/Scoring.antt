-- ===== src/Scoring.antt =====
-- packages/scoring/conditions: what a rule of a bot tests, and its verdict on a signal. base.py,
-- simple.py and composite.py; a series or plugin condition is a function of the context here, with the
-- window of history that it names, and Series has those of series.py. A reference to a feature is only
-- compared, so it is a number, and of a mapping of features only that it is one is read.
mod Negation
mod Comparison
mod Series
mod Float
mod Resolver
mod Evaluator
mod Loop
mod Executed
mod Completed
mod Examples
use scalper_v.Base.{
  ℕ, Bool, true, false, not, ◌&&◌, ◌||◌, ◌==◌, if◌then◌else◌, Option, none, some, List, [], ◌∷◌,
}
use scalper_v.Base.Int.{pos}
use scalper_v.Decimal.{Decimal, int, ◌<?◌, ◌≤?◌, ◌=?◌}

-- `FeatureValue`, of which exactly one field is set.
pub data FeatureValue : Type 0 where
  value_num : Decimal → FeatureValue
  value_bool : Bool → FeatureValue
  value_json : FeatureValue

pub data Variant : Type 0 where
  num_variant bool_variant json_variant : Variant

-- The dictionaries that stand in `error_info`; `not_numeric` is the mismatch of a series condition,
-- with the reference that it may name, and `custom` is one of a plugin condition.
pub data ErrorInfo : Type 0 where
  feature_missing : ℕ → ErrorInfo
  type_mismatch : Variant → Variant → ErrorInfo
  feature_history_missing : ℕ → ErrorInfo
  feature_history_too_short : (have need : ℕ) → ErrorInfo
  not_numeric : Option ℕ → ErrorInfo
  json_unsupported custom : ErrorInfo

-- What a call of `evaluate` ends in: the pair that it returns, or an exception.
pub data Evaluation : Type 0 where
  returned : Bool → Option ErrorInfo → Evaluation
  raised : Evaluation

pub record RuleContext : Type 0 where
  pub feature_snapshot : List (ℕ × FeatureValue)
  pub feature_ref : ℕ
  pub feature_history : List (ℕ × List FeatureValue)

-- `Decimal | bool`
pub data Constant : Type 0 where
  number : Decimal → Constant
  truth : Bool → Constant

mutual
  pub data Condition : Type 0 where
    equals not_equals : Constant → Condition
    gt gte lt lte : Decimal → Condition
    between : Decimal → Decimal → Condition
    is_in : Constant → List Constant → Condition
    all_of any_of : Conditions → Condition
    negated : Condition → Condition
    when_then_else : Condition → Condition → Condition → Condition
    external : Option ℕ → (RuleContext → Evaluation) → Condition

  pub data Conditions : Type 0 where
    nil : Conditions
    cons : Condition → Conditions → Conditions

abbrev pub got_variant : FeatureValue → Variant
got_variant (value_num d) = num_variant
got_variant (value_bool b) = bool_variant
got_variant value_json = json_variant

abbrev pub feature_of : List (ℕ × FeatureValue) → ℕ → Option FeatureValue
feature_of [] ref = none
feature_of ((key, value) ∷ rest) ref =
    let later = feature_of rest ref in if key == ref then some value else later

-- The branches that the simple conditions share: a miss, and a value of another variant.
abbrev pub missing : RuleContext → Evaluation
missing ctx = returned false (some (feature_missing ctx.feature_ref))

abbrev pub mismatch : Variant → FeatureValue → Evaluation
mismatch expected value = returned false (some (type_mismatch expected (got_variant value)))

abbrev pub on_num : (Decimal → Bool) → RuleContext → Option FeatureValue → Evaluation
on_num test ctx none = missing ctx
on_num test ctx (some (value_num d)) = returned (test d) none
on_num test ctx (some (value_bool b)) = mismatch num_variant (value_bool b)
on_num test ctx (some value_json) = mismatch num_variant value_json

abbrev pub on_bool : (Bool → Bool) → RuleContext → Option FeatureValue → Evaluation
on_bool test ctx none = missing ctx
on_bool test ctx (some (value_bool b)) = returned (test b) none
on_bool test ctx (some (value_num d)) = mismatch bool_variant (value_num d)
on_bool test ctx (some value_json) = mismatch bool_variant value_json

abbrev pub same : Bool → Bool → Bool
same true b = b
same false b = not b

-- `EqualsCondition` and `NotEqualsCondition`
abbrev pub equality : (Bool → Bool) → Constant → RuleContext → Option FeatureValue → Evaluation
equality on (number d) ctx none = missing ctx
equality on (truth b) ctx none = missing ctx
equality on (number d) ctx (some value_json) = returned false (some json_unsupported)
equality on (truth b) ctx (some value_json) = returned false (some json_unsupported)
equality on (truth b) ctx (some (value_bool c)) = returned (on (same c b)) none
equality on (truth b) ctx (some (value_num e)) = mismatch bool_variant (value_num e)
equality on (number d) ctx (some (value_num e)) = returned (on (e =? d)) none
equality on (number d) ctx (some (value_bool c)) = mismatch num_variant (value_bool c)

-- Python's `True` and `False` equal 1 and 0, which shows in a list of both kinds.
abbrev pub as_number : Bool → Decimal
as_number true = int (pos 1)
as_number false = int (pos 0)

abbrev pub num_equals : Decimal → Constant → Bool
num_equals d (number e) = d =? e
num_equals d (truth b) = d =? as_number b

abbrev pub bool_equals : Bool → Constant → Bool
bool_equals b (truth c) = same b c
bool_equals b (number e) = as_number b =? e

abbrev pub any : (Constant → Bool) → List Constant → Bool
any test [] = false
any test (v ∷ rest) = test v || any test rest

-- `InCondition`: the first allowed value says which variant is expected.
abbrev pub membership : Constant → List Constant → RuleContext → Option FeatureValue → Evaluation
membership (truth c) rest ctx value = on_bool (λ b. any (bool_equals b) (truth c ∷ rest)) ctx value
membership (number e) rest ctx value = on_num (λ d. any (num_equals d) (number e ∷ rest)) ctx value

abbrev pub found : RuleContext → Option FeatureValue
found ctx = feature_of ctx.feature_snapshot ctx.feature_ref

abbrev pub negate : Evaluation → Evaluation
negate (returned outcome error) = returned (not outcome) none
negate raised = raised

-- One pass of the loop of `and`, of `or`, and the dispatch of `when_then_else`.
abbrev pub and_step : Evaluation → Evaluation → Evaluation
and_step (returned true error) rest = rest
and_step (returned false error) rest = returned false none
and_step raised rest = raised

abbrev pub or_step : Evaluation → Evaluation → Evaluation
or_step (returned true error) rest = returned true none
or_step (returned false error) rest = rest
or_step raised rest = raised

abbrev pub choose_branch : Evaluation → Evaluation → Evaluation → Evaluation
choose_branch (returned true error) then_ else_ = then_
choose_branch (returned false error) then_ else_ = else_
choose_branch raised then_ else_ = raised

unfoldable mutual
  unfolding ◌=?◌ ◌<?◌ ◌≤?◌

  pub evaluate : Condition → RuleContext → Evaluation
  evaluate (equals v) ctx = equality (λ b. b) v ctx (found ctx)
  evaluate (not_equals v) ctx = equality not v ctx (found ctx)
  evaluate (gt bound) ctx = on_num (λ d. bound <? d) ctx (found ctx)
  evaluate (gte bound) ctx = on_num (λ d. bound ≤? d) ctx (found ctx)
  evaluate (lt bound) ctx = on_num (λ d. d <? bound) ctx (found ctx)
  evaluate (lte bound) ctx = on_num (λ d. d ≤? bound) ctx (found ctx)
  evaluate (between lo hi) ctx = on_num (λ d. (lo ≤? d) && (d ≤? hi)) ctx (found ctx)
  evaluate (is_in v values) ctx = membership v values ctx (found ctx)
  evaluate (all_of conditions) ctx = evaluate_all conditions ctx
  evaluate (any_of conditions) ctx = evaluate_any conditions ctx
  evaluate (negated condition) ctx = negate (evaluate condition ctx)
  evaluate (when_then_else test then_ else_) ctx =
      choose_branch (evaluate test ctx) (evaluate then_ ctx) (evaluate else_ ctx)
  evaluate (external window call) ctx = call ctx

  pub evaluate_all : Conditions → RuleContext → Evaluation
  evaluate_all nil ctx = returned true none
  evaluate_all (cons sub rest) ctx = and_step (evaluate sub ctx) (evaluate_all rest ctx)

  pub evaluate_any : Conditions → RuleContext → Evaluation
  evaluate_any nil ctx = returned false none
  evaluate_any (cons sub rest) ctx = or_step (evaluate sub ctx) (evaluate_any rest ctx)
