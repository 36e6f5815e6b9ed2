-- ===== src/Runtime.antt =====
-- src/dir_core/runtime.py: the facade over the registry, the context store, the decision audit and
-- the DIM, with the audit rows of `MemoryDecisionAuditStorage` of src/dir_core/storage/memory.py. The
-- time stamps of the rows and their columns that the runtime leaves at the default are left out.
pub mod Gate
use decision_intelligence_ru.Prelude.{
  Bool, List, Option, String, [], if◌then◌else◌, is_some, none, or_else, some, ℤ, ◌++◌, ◌==◌, ◌∷◌,
}
use decision_intelligence_ru.Python.{
  Fields, Prims, Res, Value, dict, dict_or_empty, find_field, get_field, is_null, num, ok, raise,
  set_field, str, to_list, to_text, truthy, ◌>>=◌,
}
use decision_intelligence_ru.Models.{
  PolicyProposal, Pydantic, Reason, ValidationVerdict, accept, agent_degraded, agent_retired,
  agent_suspended, code, escalate, fields_of, of_list, reject, text, value,
}
use decision_intelligence_ru.Registry.{
  AgentRegistry, get_agent_contract, get_agent_projection, get_agent_status, get_schema,
}
use decision_intelligence_ru.ContextStore.{ContextStore, compile_working_context, update_session}
use decision_intelligence_ru.Governor.{IntentRetryGovernor}
use decision_intelligence_ru.Dim.{
  Contract, Outcome, Request, Validator, mapping, projected, validate_proposal,
}

pub record AuditRow (F : Type 0) : Type 0 where
  pub dfid : String
  pub event : String
  pub details : Fields F

pub record DecisionRuntime (F : Type 0) : Type 0 where
  pub registry : AgentRegistry F
  pub context_store : ContextStore F
  pub audit : List (AuditRow F)

-- The arguments of `evaluate_proposal`, but for the governor; `now` is resolved.
pub record Call (F : Type 0) : Type 0 where
  pub proposal : PolicyProposal F
  pub raw_web_context : Fields F
  pub dim_context : Option (Fields F)
  pub allowed_agents : Option (List String)
  pub contract : Option (Contract F)
  pub use_registry_contract : Bool
  pub custom_validators : List (Validator F)
  pub now : ℤ
  pub record_audit : Bool

pub record Evaluation (F : Type 0) : Type 0 where
  pub result : Res (ValidationVerdict × Reason)
  pub runtime : DecisionRuntime F
  pub governor : Option IntentRetryGovernor

-- the early returns by the agent's status
unfoldable pub gate_status : String → Option (ValidationVerdict × Reason)
gate_status status =
    if status == "SUSPENDED"
    then some (reject, code agent_suspended)
    else if status == "RETIRED"
    then some (reject, code agent_retired)
    else if status == "DEGRADED"
    then some (reject, code agent_degraded)
    else if status == "ESCALATION_ONLY"
    then some (escalate, text "AGENT_ESCALATION_ONLY")
    else none

unfoldable pub gate : Option (String × Option String) → Option (ValidationVerdict × Reason)
gate none = none
gate (some (status, reason)) = gate_status status

unfoldable pub reason_text : Reason → String
reason_text (code c) = value c
reason_text (text s) = s

-- the event and the verdict's text, for the verdicts that are recorded
unfoldable pub event_of : ValidationVerdict → Option (String × String)
event_of accept = some ("PROPOSAL_ACCEPT", "ACCEPT")
event_of reject = some ("PROPOSAL_REJECT", "REJECT")
event_of escalate = none

module _ {F : Type 0} where
  -- `meta.setdefault(key, value)`
  unfoldable pub set_default : String → Value F → Fields F → Fields F
  set_default key v meta = if is_some (find_field key meta) then meta else set_field key v meta

  unfoldable pub item_reason : ⦃p : Prims F⦄ → Value F → List (Value F)
  item_reason (dict item) = str (to_text (or_else (find_field "reason" item) (str ""))) ∷ []
  item_reason v = []

  unfoldable pub item_reasons : ⦃p : Prims F⦄ → List (Value F) → List (Value F)
  item_reasons [] = []
  item_reasons (v ∷ vs) = item_reason v ++ item_reasons vs

  unfoldable pub base_details : PolicyProposal F → Reason → String → Fields F
  base_details proposal reason verdict = fields_of (
      ("agent_id", str proposal.agent_id)
      ∷ ("policy_kind", str proposal.policy_kind)
      ∷ ("reason", str (reason_text reason))
      ∷ ("verdict", str verdict)
      ∷ ("confidence", num proposal.confidence)
      ∷ [])

  unfoldable pub with_schema : Value F → Fields F → Fields F
  with_schema schema meta = if is_null schema then meta else set_field "schema" schema meta

  unfoldable pub request_of : Call F → Option (Contract F) → Request F
  request_of c contract = record {
    proposal = c.proposal;
    allowed_agents = c.allowed_agents;
    now = c.now;
    contract = contract;
    custom_validators = c.custom_validators;
  }

  unfoldable pub append_row : DecisionRuntime F → AuditRow F → DecisionRuntime F
  append_row rt row = record rt { audit = rt.audit ++ row ∷ [] }

  -- the runtime once the session has the web context
  unfoldable pub with_session : DecisionRuntime F → Call F → DecisionRuntime F
  with_session rt c = record rt {
    context_store = update_session rt.context_store c.proposal.dfid c.raw_web_context;
  }

module _ {F : Type 0} ⦃p : Prims F⦄ where
  -- the context of the DIM, from the caller's or compiled from the store
  unfoldable pub working_context : DecisionRuntime F → Call F → Option (Fields F) → Res (Fields F)
  working_context rt c (some context) = dict_or_empty (get_field "meta" context) >>= λ meta. ok (
      set_field "meta"
        (dict (
          set_default "agent_id" (str c.proposal.agent_id)
            (set_default "dfid" (str c.proposal.dfid) meta)))
        context)
  working_context rt c none =
      let ctx =
        set_field "web" (dict c.raw_web_context)
          (compile_working_context rt.context_store c.proposal.agent_id c.proposal.dfid) in
      dict_or_empty (get_field "meta" ctx) >>= λ meta. ok (
        set_field "meta"
          (dict (
            with_schema (get_schema rt.registry c.proposal.agent_id) (
              set_field "agent_id" (str c.proposal.agent_id)
                (set_field "dfid" (str c.proposal.dfid) meta))))
          ctx)

  -- `details["failures"]` and `details["reason_codes"]`
  unfoldable pub with_failures : Value F → Fields F → Res (Fields F)
  with_failures failures details =
      if truthy failures
      then (to_list failures >>= λ vs. ok (
          set_field "reason_codes" (of_list (item_reasons vs))
            (set_field "failures" failures details)))
      else ok details

  unfoldable pub with_failed_id : Value F → Fields F → Fields F
  with_failed_id id details =
      if truthy id then set_field "failed_invariant_id" id details else details

  module _ ⦃y : Pydantic F⦄ where
    unfoldable pub registry_contract : DecisionRuntime F → String → Res (Option (Contract F))
    registry_contract rt agent_id = get_agent_projection rt.registry agent_id >>= λ projection.
        ok (elim projection [
          | some q ↦ some (projected q)
          | none ↦ elim (get_agent_contract rt.registry agent_id) [
            | none ↦ none
            | some fs ↦ some (mapping fs)
          ]
        ])

    unfoldable pub resolve_contract : DecisionRuntime F → Call F → Res (Option (Contract F))
    resolve_contract rt c = elim c.contract [
      | some contract ↦ ok (some contract)
      | none ↦ if c.use_registry_contract then registry_contract rt c.proposal.agent_id else ok none
    ]

  -- the audit row of a verdict, where one is recorded
  unfoldable pub audit_row :
      Call F → Fields F → ValidationVerdict → Reason → Res (Option (AuditRow F))
  audit_row c context verdict reason = dict_or_empty (get_field "_dim_audit" context) >>= λ audit.
      elim (event_of verdict) [
        | none ↦ ok none
        | some (event, verdict_text) ↦
            if c.record_audit
            then (with_failures (get_field "failures" audit) (
                  with_failed_id (get_field "failed_invariant_id" audit)
                    (base_details c.proposal reason verdict_text))
                >>= λ details.
                    ok (some (record { dfid = c.proposal.dfid; event = event; details = details })))
            else ok none
      ]

  -- what follows the call of the DIM
  unfoldable pub record_verdict : DecisionRuntime F → Call F → Outcome F → Evaluation F
  record_verdict rt c o = elim o.result [
    | raise e ↦ record { result = raise e; runtime = rt; governor = o.governor }
    | ok (verdict, reason) ↦ elim (audit_row c o.context verdict reason) [
      | raise e ↦ record { result = raise e; runtime = rt; governor = o.governor }
      | ok none ↦ record { result = ok (verdict, reason); runtime = rt; governor = o.governor }
      | ok (some row) ↦ record {
        result = ok (verdict, reason);
        runtime = append_row rt row;
        governor = o.governor;
      }
    ]
  ]

  module _ ⦃y : Pydantic F⦄ where
    -- the context and the contract that the DIM is called with
    unfoldable pub prepare : DecisionRuntime F → Call F → Res (Fields F × Option (Contract F))
    prepare rt c = working_context rt c c.dim_context >>= λ context.
        resolve_contract rt c >>= λ contract. ok (context, contract)

    -- `evaluate_proposal` behind the status gate
    unfoldable pub evaluate_open :
        DecisionRuntime F → Call F → Option IntentRetryGovernor → Evaluation F
    evaluate_open rt c governor = elim (prepare rt c) [
      | raise e ↦ record { result = raise e; runtime = rt; governor = governor }
      | ok (context, contract) ↦
          record_verdict rt c (validate_proposal (request_of c contract) context governor)
    ]

    unfoldable pub evaluate_proposal :
        DecisionRuntime F → Call F → Option IntentRetryGovernor → Evaluation F
    evaluate_proposal rt c governor =
        elim (gate (get_agent_status rt.registry c.proposal.agent_id)) [
          | some verdict ↦ record { result = ok verdict; runtime = rt; governor = governor }
          | none ↦ evaluate_open (with_session rt c) c governor
        ]
