-- ===== src/Scoring/Resolver.antt =====
-- packages/scoring/resolver.py, what decides between the two stores and by age, and the rules of a
-- bot. A `Source` is what the resolver reads; a name, a reference or a template is a number.
use scalper_v.Base.{ℕ, ◌-◌, ◌*◌, ◌/◌, ltb, Bool, if◌then◌else◌, Option, none, some, List}
use scalper_v.Scoring.{FeatureValue, ErrorInfo, Condition}
use scalper_v.Scoring.Float.{Float}

pub data OnError : Type 0 where
  skip reject_rule : OnError

pub record ScoringRule : Type 0 where
  pub name : ℕ
  pub weight : Float
  pub feature : ℕ
  pub condition : Condition
  pub on_error : OnError
  pub required : Bool
  pub max_staleness_sec : Option ℕ

pub data ScoringMode : Type 0 where
  active passthrough : ScoringMode

pub record ScoringConfig : Type 0 where
  pub mode : ScoringMode
  pub trigger_threshold : Float
  pub rules : List ScoringRule

pub record Stored : Type 0 where
  pub value : FeatureValue
  pub computed_at : ℕ

-- The stores, none also where the bus fails or the payload does not decode; the substituted
-- reference of a template; its interval in seconds, none if `parse_feature_ref` raises.
pub record Source : Type 0 where
  pub substitute : ℕ → ℕ
  pub interval : ℕ → Option ℕ
  pub kv : ℕ → Option Stored
  pub db : ℕ → Option Stored
  pub db_history : ℕ → ℕ → List FeatureValue
  pub now : ℕ

pub data RuleError : Type 0 where
  missing_path : ℕ → RuleError
  stale_age : ℕ → ℕ → ℕ → RuleError
  of_condition : ErrorInfo → RuleError
  exception : RuleError

pub data ResolverResult : Type 0 where
  ok : FeatureValue → ResolverResult
  data_missing data_stale : RuleError → ResolverResult
  malformed : ResolverResult

check_staleness : ℕ → ℕ → Stored → ResolverResult
check_staleness now limit stored =
    let age = (now - stored.computed_at) / 1_000_000 in
    if ltb limit age then data_stale (stale_age stored.computed_at age limit) else ok stored.value

from_db : ℕ → ℕ → ℕ → Option Stored → ResolverResult
unfolding check_staleness
from_db now limit ref none = data_missing (missing_path ref)
from_db now limit ref (some stored) = check_staleness now limit stored

from_stores : ℕ → ℕ → ℕ → Option Stored → Option Stored → ResolverResult
unfolding check_staleness from_db
from_stores now limit ref (some stored) db = check_staleness now limit stored
from_stores now limit ref none db = from_db now limit ref db

abbrev limit_of : Option ℕ → ℕ → ℕ
limit_of (some seconds) interval = seconds
limit_of none interval = 2 * interval

with_interval : Source → Option ℕ → ℕ → Option ℕ → ResolverResult
unfolding from_stores
with_interval src limit ref none = malformed
with_interval src limit ref (some seconds) =
    from_stores src.now (limit_of limit seconds) ref (src.kv ref) (src.db ref)

unfoldable pub resolve_feature : Source → ScoringRule → ResolverResult
unfolding with_interval
resolve_feature src rule =
    let ref = src.substitute rule.feature in
    with_interval src rule.max_staleness_sec ref (src.interval ref)
