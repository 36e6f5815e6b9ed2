-- ===== src/Models.antt =====
-- The shared models of src/dir_core/models.py and the codes of src/dir_core/data_types.py that the
-- decision kernel reads. Fields that pydantic types as `float` are numbers of the type `F`, a
-- `datetime` is UTC microseconds, `Any` is a `Value`.
use decision_intelligence_ru.Prelude.{Bool, List, Option, String, [], map, none, some, ℤ, ◌∷◌, ◌≡◌}
use decision_intelligence_ru.Python.{
  Fields, Prims, Res, Value, Values, bool, cons, end, find_field, list, nil, null, num, ok, str,
}

pub data ValidationVerdict : Type 0 where
  accept reject escalate : ValidationVerdict

pub data DimReasonCode : Type 0 where
  reasoning_exhaustion ttl_expired agent_suspended agent_retired agent_degraded : DimReasonCode
  contract_limit_exceeded contract_parameter_missing invariant_violation : DimReasonCode
  validation_passed : DimReasonCode

-- The text of a code: `StrEnum.value`.
unfoldable pub value : DimReasonCode → String
value reasoning_exhaustion = "REASONING_EXHAUSTION"
value ttl_expired = "TTL_EXPIRED"
value agent_suspended = "AGENT_SUSPENDED"
value agent_retired = "AGENT_RETIRED"
value agent_degraded = "AGENT_DEGRADED"
value contract_limit_exceeded = "CONTRACT_LIMIT_EXCEEDED"
value contract_parameter_missing = "CONTRACT_PARAMETER_MISSING"
value invariant_violation = "INVARIANT_VIOLATION"
value validation_passed = "VALIDATION_PASSED"

-- `str | DimReasonCode`
pub data Reason : Type 0 where
  code : DimReasonCode → Reason
  text : String → Reason

pub record ContractReleaseRef : Type 0 where
  pub contract_id : String
  pub contract_version : String
  pub api_version : String
  pub contract_hash : String

-- `type` and `match` are kept as the texts that the evaluator compares.
pub record InvariantSpec (F : Type 0) : Type 0 where
  pub id : String
  pub type : String
  pub field : String
  pub min : Option F
  pub max : Option F
  pub allowed : List (Value F)
  pub denied : List (Value F)
  pub match : String
  pub applies_to_policy_kinds : List String
  pub snapshot_path : Option String
  pub expected : Value F
  pub drift_envelope_pct : Option F
  pub reason_code : String
  pub runtime_amendable : Bool
  pub min_floor : Option F
  pub max_ceiling : Option F
  pub amend_ttl_seconds : Option ℤ

pub record ContractParameterAmendment (F : Type 0) : Type 0 where
  pub agent_id : String
  pub base_release : ContractReleaseRef
  pub invariant_id : String
  pub patch : Fields F
  pub actor_id : String
  pub dfid : String
  pub created_at : ℤ
  pub expires_at : Option ℤ
  pub impact_category : String

-- `role` is the text of the `ContractRole`.
pub record RuntimeContractProjection (F : Type 0) : Type 0 where
  pub release : ContractReleaseRef
  pub agent_id : String
  pub role : String
  pub mission : String
  pub allowed_policy_types : List String
  pub resource_scope : Fields F
  pub transaction_limits : Fields F
  pub execution_conditions : Fields F
  pub evidence_requirements : Fields F
  pub escalation_policy : Fields F
  pub aggregate_policies : List (Value F)
  pub invariants : List (InvariantSpec F)
  pub parameter_amendments : List (ContractParameterAmendment F)

pub record PolicyProposal (F : Type 0) : Type 0 where
  pub dfid : String
  pub agent_id : String
  pub policy_kind : String
  pub params : Fields F
  pub context_ref : Option String
  pub execution_constraints : Fields F
  pub valid_until : Option ℤ
  pub created_at : ℤ
  pub confidence : F
  pub justification : Option String
  pub explain_ref : Option String

module _ {F : Type 0} where
  abbrev pub opt_str : Option String → Value F
  opt_str none = null
  opt_str (some s) = str s

  abbrev pub opt_num : Option F → Value F
  opt_num none = null
  opt_num (some x) = num x

  abbrev pub of_items : List (Value F) → Values F
  of_items [] = nil
  of_items (v ∷ vs) = cons v (of_items vs)

  abbrev pub of_list : List (Value F) → Value F
  of_list vs = list (of_items vs)

  abbrev pub of_texts : List String → Value F
  of_texts ss = of_list (map str ss)

  abbrev pub opt_int : (ℤ → F) → Option ℤ → Value F
  opt_int f none = null
  opt_int f (some i) = num (f i)

  abbrev pub fields_of : List (String × Value F) → Fields F
  fields_of [] = end
  fields_of ((k, v) ∷ rest) = Fields.field k v (fields_of rest)

  -- `invariant.model_dump()`: a dict of the fields in their order
  unfoldable pub dump_spec : ⦃p : Prims F⦄ → InvariantSpec F → Fields F
  dump_spec ⦃p⦄ s = fields_of (
      ("id", str s.id)
      ∷ ("type", str s.type)
      ∷ ("field", str s.field)
      ∷ ("min", opt_num s.min)
      ∷ ("max", opt_num s.max)
      ∷ ("allowed", of_list s.allowed)
      ∷ ("denied", of_list s.denied)
      ∷ ("match", str s.match)
      ∷ ("applies_to_policy_kinds", of_texts s.applies_to_policy_kinds)
      ∷ ("snapshot_path", opt_str s.snapshot_path)
      ∷ ("expected", s.expected)
      ∷ ("drift_envelope_pct", opt_num s.drift_envelope_pct)
      ∷ ("reason_code", str s.reason_code)
      ∷ ("runtime_amendable", bool s.runtime_amendable)
      ∷ ("min_floor", opt_num s.min_floor)
      ∷ ("max_ceiling", opt_num s.max_ceiling)
      ∷ ("amend_ttl_seconds", opt_int p.of_int s.amend_ttl_seconds)
      ∷ [])

-- The arguments of a `RuntimeContractProjection(...)` call, before pydantic validates them.
pub record RawProjection (F : Type 0) : Type 0 where
  pub release : ContractReleaseRef
  pub agent_id : String
  pub role : Value F
  pub mission : String
  pub allowed_policy_types : List (Value F)
  pub resource_scope : Fields F
  pub transaction_limits : Fields F
  pub execution_conditions : Fields F
  pub evidence_requirements : Fields F
  pub escalation_policy : Fields F
  pub aggregate_policies : List (Value F)
  pub invariants : List (InvariantSpec F)

-- What pydantic answers. A field declared `str` or `Optional[float]` that holds a text or a float
-- validates to that text or float.
pub record Pydantic (F : Type 0) : Type 0 where
  pub validate_spec : Fields F → Res (InvariantSpec F)  -- InvariantSpec.model_validate
  pub validate_amendment : Fields F → Res (ContractParameterAmendment F)
  -- RuntimeContractProjection.model_validate, with the invariants and amendments validated before
  pub validate_projection :
      Fields F
      → List (InvariantSpec F)
      → List (ContractParameterAmendment F)
      → Res (RuntimeContractProjection F)
  pub make_projection : RawProjection F → Res (RuntimeContractProjection F)
  pub dump_projection : RuntimeContractProjection F → Fields F  -- model_dump(mode="json")
  pub dump_amendment : ContractParameterAmendment F → Fields F
  pub make_invariants :
      (raw : RawProjection F) (q : RuntimeContractProjection F)
      → make_projection raw ≡ ok q
      → q.invariants ≡ raw.invariants
  pub spec_id :
      (fs : Fields F) (s : InvariantSpec F) (i : String)
      → validate_spec fs ≡ ok s
      → find_field "id" fs ≡ some (str i)
      → s.id ≡ i
  pub spec_field :
      (fs : Fields F) (s : InvariantSpec F) (i : String)
      → validate_spec fs ≡ ok s
      → find_field "field" fs ≡ some (str i)
      → s.field ≡ i
  pub spec_max :
      (fs : Fields F) (s : InvariantSpec F) (x : F)
      → validate_spec fs ≡ ok s
      → find_field "max" fs ≡ some (num x)
      → s.max ≡ some x
  pub spec_no_max :
      (fs : Fields F) (s : InvariantSpec F)
      → validate_spec fs ≡ ok s
      → find_field "max" fs ≡ some null
      → s.max ≡ none
