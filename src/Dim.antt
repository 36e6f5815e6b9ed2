-- ===== src/Dim.antt =====
-- src/dir_core/dim.py: the Decision Integrity Module. `validate_proposal` returns its result, and the
-- context and the governor as it leaves them. Custom validators are functions of the proposal, the
-- context and the contract; the clock is the argument `now`, in UTC microseconds.
pub mod Legal
pub mod Accept
pub mod Effects
use decision_intelligence_ru.Prelude.{
  Bool, List, Option, String, [], false, if◌then◌else◌, is_empty, ltb_ℤ, map, mem, none, or_else,
  some, ℤ, ◌+ℤ◌, ◌==◌, ◌∷◌,
}
use decision_intelligence_ru.Python.{
  Fields, Prims, Res, Value, attribute_error, bool, dict, end, field, find_field, get_field,
  is_null, num, of_bool, ok, raise, set_field, str, to_float, type_error, ◌>>=◌, ◌>>?◌,
}
use decision_intelligence_ru.Python.Text.{join, ◌+s◌}
use decision_intelligence_ru.Models.{
  PolicyProposal, Pydantic, Reason, RuntimeContractProjection, ValidationVerdict, accept, code,
  of_list, reasoning_exhaustion, reject, text, ttl_expired, validation_passed, value,
}
use decision_intelligence_ru.Invariants.{InvariantEvaluationFailure, evaluate_invariants}
use decision_intelligence_ru.ContractProjection.{ensure_projection_invariants, project_contract}
use decision_intelligence_ru.Amendments.{projection_with_effective_invariants}
use decision_intelligence_ru.Governor.{IntentRetryGovernor, record_rejection, should_abort}

-- `Dict[str, Any] | RuntimeContractProjection`
pub data Contract (F : Type 0) : Type 0 where
  mapping : Fields F → Contract F
  projected : RuntimeContractProjection F → Contract F

-- A rejection by a plain reason, or by the failures of invariants, the first one apart.
pub data Rejection : Type 0 where
  plain : Reason → Rejection
  violations : InvariantEvaluationFailure → List InvariantEvaluationFailure → Rejection

abbrev pub Validator : Type 0 → Type 0
Validator F = PolicyProposal F → Fields F → Fields F → Option String

-- The arguments of `validate_proposal` that it only reads.
pub record Request (F : Type 0) : Type 0 where
  pub proposal : PolicyProposal F
  pub allowed_agents : Option (List String)
  pub now : ℤ
  pub contract : Option (Contract F)
  pub custom_validators : List (Validator F)

pub record Outcome (F : Type 0) : Type 0 where
  pub result : Res (ValidationVerdict × Reason)
  pub context : Fields F
  pub governor : Option IntentRetryGovernor

abbrev pub deploy : String
deploy = "deploy_to_production"

-- the code that a failure is audited and joined under
unfoldable pub failure_reason_code : InvariantEvaluationFailure → String
failure_reason_code f = elim f.reason [ code c ↦ value c | text s ↦ s ]

violations_of : List InvariantEvaluationFailure → Option Rejection
violations_of [] = none
violations_of (f ∷ fs) = some (violations f fs)

-- `retry_governor.record_rejection(proposal.dfid)` where there is a governor
unfoldable pub record_on : Option IntentRetryGovernor → String → Option IntentRetryGovernor
record_on none dfid = none
record_on (some g) dfid = some (record_rejection g dfid).0

unfoldable pub joined_reason : InvariantEvaluationFailure → List InvariantEvaluationFailure → String
joined_reason f fs = join ";" (map failure_reason_code (f ∷ fs))

-- `retry_governor is not None and retry_governor.should_abort(proposal.dfid)`
unfoldable pub exhausted : Option IntentRetryGovernor → String → Bool
exhausted none dfid = false
exhausted (some g) dfid = should_abort g dfid

module _ {F : Type 0} ⦃p : Prims F⦄ ⦃y : Pydantic F⦄ where
  unfoldable pub resolve_valid_until : PolicyProposal F → Res (Option ℤ)
  resolve_valid_until proposal = elim proposal.valid_until [
    | some t ↦ ok (some t)
    | none ↦
        let window = get_field "validity_window_sec" proposal.execution_constraints in
        if is_null window
        then ok none
        else (to_float window >>= λ s. p.after proposal.created_at s >>= λ t. ok (some t))
  ]

  base_projection : Contract F → Res (RuntimeContractProjection F)
  base_projection (mapping fs) = project_contract fs
  base_projection (projected q) = ok q

  unfoldable pub resolve_projection : Contract F → ℤ → Res (RuntimeContractProjection F)
  unfolding base_projection
  resolve_projection contract now = do
    base ← base_projection contract
    projection ← ensure_projection_invariants base
    if is_empty projection.parameter_amendments
        then ok projection
        else projection_with_effective_invariants projection now

  -- `safety_rules`: {} where it is no dict, and for a projection
  unfoldable pub safety_rules : Contract F → Fields F
  safety_rules (mapping fs) =
      elim (or_else (find_field "safety_rules" fs)
        (or_else (find_field "permissions" fs) (dict fs))) [ dict rules ↦ rules | _ ↦ end ]
  safety_rules (projected q) = end

  -- `min_conf`, None where it is not given
  unfoldable pub min_confidence : Contract F → RuntimeContractProjection F → Value F
  min_confidence contract projection =
      let own = get_field "min_confidence_threshold" (safety_rules contract) in
      if is_null own then get_field "confidence_below" projection.escalation_policy else own

  unfoldable pub check_confidence : PolicyProposal F → Value F → Res (Option Rejection)
  check_confidence proposal threshold =
      if is_null threshold
      then ok none
      else (to_float threshold >>= λ t. ok (
          if p.lt proposal.confidence t
          then some (
              plain (
                text (
                  "Proposal confidence ("
                  +s p.show (num proposal.confidence)
                  +s ") is below threshold ("
                  +s p.show threshold
                  +s ")")))
          else none))

  unfoldable pub check_invariants :
      PolicyProposal F → RuntimeContractProjection F → Fields F → Option Rejection
  unfolding violations_of
  check_invariants proposal projection context =
      violations_of (evaluate_invariants proposal projection context)

  -- `if contract:`, an empty mapping is false
  unfoldable pub given : Option (Contract F) → Option (Contract F)
  given none = none
  given (some (mapping end)) = none
  given (some (mapping (field k v fs))) = some (mapping (field k v fs))
  given (some (projected q)) = some (projected q)

  unfoldable pub check_given : Request F → Fields F → Option (Contract F) → Res (Option Rejection)
  check_given r context none = ok none
  check_given r context (some contract) = resolve_projection contract r.now >>= λ projection.
      check_confidence r.proposal (min_confidence contract projection)
      >>? ok (check_invariants r.proposal projection context)

  unfoldable pub check_contract : Request F → Fields F → Res (Option Rejection)
  unfolding check_given
  check_contract r context = check_given r context (given r.contract)

  unfoldable pub check_schema : PolicyProposal F → Option Rejection
  check_schema proposal =
      if proposal.policy_kind == ""
      then some (plain (text "Missing policy_kind"))
      else if proposal.agent_id == ""
      then some (plain (text "Missing agent_id"))
      else none

  unfoldable pub check_ttl_window : PolicyProposal F → ℤ → Res (Option Rejection)
  check_ttl_window proposal now = resolve_valid_until proposal >>= λ until. ok (elim until [
    | none ↦ none
    | some t ↦ if ltb_ℤ t now then some (plain (code ttl_expired)) else none
  ])

  unfoldable pub check_agent : PolicyProposal F → Option (List String) → Option Rejection
  check_agent proposal allowed = elim allowed [
    | none ↦ none
    | some agents ↦
        if mem proposal.agent_id agents
        then none
        else some (plain (text ("Agent '" +s proposal.agent_id +s "' not authorized (RBAC)")))
  ]

  -- a value that `>` compares with a float
  unfoldable pub comparable : Value F → Res F
  comparable (num x) = ok x
  comparable (bool b) = ok (of_bool b)
  comparable _ = raise type_error

  -- `context.get("state", {}).get("risk_score", 0.0)`
  unfoldable pub risk_score : Fields F → Res (Value F)
  risk_score context = elim (or_else (find_field "state" context) (dict end)) [
    | dict state ↦ ok (or_else (find_field "risk_score" state) (num (p.dec 0 0)))
    | _ ↦ raise attribute_error
  ]

  unfoldable pub check_risk : PolicyProposal F → Fields F → Res (Option Rejection)
  unfolding comparable
  check_risk proposal context = risk_score context >>= λ score.
      if proposal.policy_kind == deploy
      then (comparable score >>= λ x. ok (
          if p.lt (p.dec 8 1) x
          then some (plain (text ("Risk score " +s p.show score +s " too high for deployment")))
          else none))
      else ok none

  unfoldable pub contract_payload : Option (Contract F) → Fields F
  contract_payload none = end
  contract_payload (some (mapping fs)) = fs
  contract_payload (some (projected q)) = y.dump_projection q

  -- the loop over the custom validators: the first reason rejects
  unfoldable pub check_custom :
      List (Validator F) → PolicyProposal F → Fields F → Fields F → Option Rejection
  check_custom [] proposal context payload = none
  check_custom (validator ∷ rest) proposal context payload =
      elim (validator proposal context payload) [
        | none ↦ check_custom rest proposal context payload
        | some reason ↦ some (plain (text ("Custom validation failed: " +s reason)))
      ]

  -- the gates of `validate_proposal` behind the governor's, in their order
  unfoldable pub check_gates : Request F → Fields F → Res (Option Rejection)
  check_gates r context =
      ok (check_schema r.proposal)
      >>? check_ttl_window r.proposal r.now
      >>? ok (check_agent r.proposal r.allowed_agents)
      >>? check_contract r context
      >>? check_risk r.proposal context
      >>? ok (check_custom r.custom_validators r.proposal context (contract_payload r.contract))

  audit_entry : InvariantEvaluationFailure → Value F
  audit_entry f =
      dict (
        field "invariant_id" (str f.invariant_id)
          (field "reason" (str (failure_reason_code f)) end))

  -- the writes to `context["_dim_audit"]`
  unfoldable pub audit_failures :
      Fields F → InvariantEvaluationFailure → List InvariantEvaluationFailure → Res (Fields F)
  unfolding audit_entry
  audit_failures context f fs = elim (or_else (find_field "_dim_audit" context) (dict end)) [
    | dict audit ↦ ok (
        set_field "_dim_audit"
          (dict (
            set_field "failures" (of_list (map audit_entry (f ∷ fs)))
              (set_field "failed_invariant_id" (str f.invariant_id) audit)))
          context)
    | _ ↦ raise type_error
  ]

  -- what follows the gates: the return, or the rejection with its effects
  unfoldable pub conclude :
      Res (Option Rejection) → String → Fields F → Option IntentRetryGovernor → Outcome F
  conclude (raise e) dfid context governor = record {
    result = raise e;
    context = context;
    governor = governor;
  }
  conclude (ok none) dfid context governor = record {
    result = ok (accept, code validation_passed);
    context = context;
    governor = governor;
  }
  conclude (ok (some (plain reason))) dfid context governor = record {
    result = ok (reject, reason);
    context = context;
    governor = record_on governor dfid;
  }
  conclude (ok (some (violations f fs))) dfid context governor =
      elim (audit_failures context f fs) [
        | raise e ↦ record { result = raise e; context = context; governor = governor }
        | ok audited ↦ record {
          result = ok (reject, text (joined_reason f fs));
          context = audited;
          governor = record_on governor dfid;
        }
      ]

  unfoldable pub validate_proposal : Request F → Fields F → Option IntentRetryGovernor → Outcome F
  validate_proposal r context governor =
      if exhausted governor r.proposal.dfid
      then record {
        result = ok (reject, code reasoning_exhaustion);
        context = context;
        governor = governor;
      }
      else conclude (check_gates r context) r.proposal.dfid context governor
