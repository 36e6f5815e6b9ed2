-- ===== src/Contract.antt =====
-- tools/contract/schema.py: the canonical Responsibility Contract of the contract tools, its limits
-- and their names. What pydantic checks of a field's type is the type here; a Literal is a data type.
-- Extra fields, which the models keep, are not modelled.
pub mod Presets
pub mod Bootstrap
pub mod Errors
pub mod PositiveLimits
pub mod Publishable
pub mod Flatten
pub mod Inflate
pub mod Integrity
pub mod Intact
pub mod Candidates
pub mod Aggregates
pub mod Normalize
pub mod InvariantIr
use decision_intelligence_ru.Prelude.{
  List, Option, String, [], if◌then◌else◌, none, or_else, some, ◌||◌, ◌∷◌,
}
use decision_intelligence_ru.Python.{Prims}
use decision_intelligence_ru.Python.Text.{contains, ends_with}
use decision_intelligence_ru.Dict
use decision_intelligence_ru.Dict.{Dict}
use decision_intelligence_ru.Models.{InvariantSpec, value}

pub data ContractRole : Type 0 where
  strategist executor monitor interface : ContractRole

pub data Explainability : Type 0 where
  required optional : Explainability

pub data EvidenceLevel : Type 0 where
  high medium low : EvidenceLevel

pub data EscalationMode : Type 0 where
  mandatory conditional disabled : EscalationMode

pub data AggregateOperator : Type 0 where
  op_gt op_ge op_lt op_le op_eq : AggregateOperator

pub data AggregateResponse : Type 0 where
  suspended escalation_only degraded : AggregateResponse

-- the numeric authority limits, by canonical name
abbrev pub irreversible_limit_keys : List String
irreversible_limit_keys =
    "max_order_size_usd" ∷ "max_drawdown_limit_pct" ∷ "max_transaction_usd" ∷ "max_premium_usd"
    ∷ "max_limit_usd" ∷ "max_refund_usd" ∷ "max_discount_pct" ∷ []

abbrev pub limit_key_aliases : Dict String
limit_key_aliases =
    ("max_discount_percentage", "max_discount_pct")
    ∷ ("max_discount_percent", "max_discount_pct")
    ∷ ("max_discount", "max_discount_pct")
    ∷ ("discount_pct", "max_discount_pct")
    ∷ ("discount_percentage", "max_discount_pct")
    ∷ ("max_order_size", "max_order_size_usd")
    ∷ ("max_order_usd", "max_order_size_usd")
    ∷ ("max_drawdown", "max_drawdown_limit_pct")
    ∷ ("max_drawdown_pct", "max_drawdown_limit_pct")
    ∷ ("max_drawdown_limit", "max_drawdown_limit_pct")
    ∷ ("max_transaction", "max_transaction_usd")
    ∷ ("max_txn_usd", "max_transaction_usd")
    ∷ ("max_premium", "max_premium_usd")
    ∷ ("max_coverage_limit", "max_limit_usd")
    ∷ ("max_refund", "max_refund_usd")
    ∷ []

unfoldable pub normalize_limit_key : String → String
normalize_limit_key key = or_else (Dict.get key limit_key_aliases) key

unfoldable pub limit_unit : String → String
limit_unit key =
    if ends_with key "_usd"
    then "USD"
    else if ends_with key "_eur"
    then "EUR"
    else if ends_with key "_pct" || contains "percentage" key
    then "percent"
    else "unitless"

pub record ContractMetadata : Type 0 where
  pub contract_id : String
  pub version : String
  pub owner : String

pub record ContractSubject : Type 0 where
  pub agent_id : String
  pub role : ContractRole
  pub parent_agent_id : Option String

pub record LimitSpec (F : Type 0) : Type 0 where
  pub value : F
  pub unit : String

-- `List[str] | Dict[str, List[str]]`
pub data Scope : Type 0 where
  names : List String → Scope
  groups : Dict (List String) → Scope

pub record AuthoritySpec (F : Type 0) : Type 0 where
  pub allowed_policy_types : List String
  pub resource_scope : Dict Scope
  pub limits : Dict (LimitSpec F)
  pub invariants : List (InvariantSpec F)

pub record EscalationSpec (F : Type 0) : Type 0 where
  pub mode : EscalationMode
  pub confidence_below : F
  pub route_to : Option String

pub record ResponsibilitySpec (F : Type 0) : Type 0 where
  pub explainability : Explainability
  pub evidence_level : EvidenceLevel
  pub escalation : EscalationSpec F

pub record AggregatePolicy (F : Type 0) : Type 0 where
  pub policy_id : String
  pub metric : String
  pub window : String
  pub operator : AggregateOperator
  pub threshold : F
  pub unit : String
  pub response : AggregateResponse
  pub statement : String

pub record CanonicalContract (F : Type 0) : Type 0 where
  pub metadata : ContractMetadata
  pub subject : ContractSubject
  pub mission : String
  pub authority : AuthoritySpec F
  pub responsibility : ResponsibilitySpec F
  pub aggregate_policies : List (AggregatePolicy F)

module _ {F : Type 0} where
  -- the comprehension of `numeric_limits`
  unfoldable pub positive_limits : ⦃p : Prims F⦄ → Dict (LimitSpec F) → Dict F
  positive_limits [] = []
  positive_limits ⦃p⦄ ((key, limit) ∷ limits) =
      if p.lt (p.dec 0 0) limit.value
      then (key, limit.value) ∷ positive_limits limits
      else positive_limits limits

  unfoldable pub numeric_limits : ⦃p : Prims F⦄ → AuthoritySpec F → Dict F
  numeric_limits authority = positive_limits authority.limits

  -- `list(resource_scope.get("instruments", []))`: of a dict, its keys
  unfoldable pub list_authorized_instruments : AuthoritySpec F → List String
  list_authorized_instruments authority = elim (Dict.get "instruments" authority.resource_scope) [
    | none ↦ []
    | some (names instruments) ↦ instruments
    | some (groups instruments) ↦ Dict.keys instruments
  ]
