-- ===== src/Tests/Decisions.antt =====
-- The theorems on the decision integrity module and the runtime at concrete data.
use decision_intelligence_ru.Prelude.{
  String, [], false, none, pos, refl, some, true, ◌+◌, ◌↔◌, ◌∷◌, ◌≡◌, ◌≢◌,
}
use decision_intelligence_ru.Python.{end, ok}
use decision_intelligence_ru.Python.Sample.{Sample, cents, sample}
use decision_intelligence_ru.Models.{Reason, ValidationVerdict, accept, code, validation_passed}
use decision_intelligence_ru.Governor.{
  IntentRetryGovernor, get_count, new_governor, record_rejection, should_abort,
}
use decision_intelligence_ru.Dim.{Request, projected, validate_proposal}
use decision_intelligence_ru.Dim.Legal.{LegalDecision}
use decision_intelligence_ru.Dim.Accept.{accept_iff}
use decision_intelligence_ru.Dim.Effects.{charge, charge-validate_proposal}
use decision_intelligence_ru.Registry.{AgentRecord, get_agent_status}
use decision_intelligence_ru.Runtime.{Call, DecisionRuntime, evaluate_proposal}
use decision_intelligence_ru.Runtime.Gate.{
  Accepted, IsServing, accept-evaluate_proposal, blocked-evaluate_proposal,
}
use decision_intelligence_ru.Tests.{order, projection_with, pydantic}

-- a request to order for 50.00 under a contract that limits orders to 100.00
abbrev request : Request Sample
request = record {
  proposal = order (cents (pos 5000));
  allowed_agents = some ("a1" ∷ []);
  now = pos 1000000;
  contract = some (projected (projection_with []));
  custom_validators = [];
}

-- a governor that aborts a flow at its first rejection, and one on which flow "f1" has spent it
abbrev strict : IntentRetryGovernor
strict = new_governor 1

abbrev spent : IntentRetryGovernor
spent = (record_rejection (new_governor 1) "f1").0

request_accepted :
    (validate_proposal request end (some strict)).result ≡ ok (accept, code validation_passed)
unfolding validate_proposal decision_intelligence_ru.Dim.exhausted should_abort new_governor
    get_count decision_intelligence_ru.Dict.get decision_intelligence_ru.Dim.conclude
    decision_intelligence_ru.Dim.check_gates decision_intelligence_ru.Dim.check_schema
    decision_intelligence_ru.Dim.check_ttl_window decision_intelligence_ru.Dim.resolve_valid_until
    decision_intelligence_ru.Dim.check_agent decision_intelligence_ru.Prelude.mem
    decision_intelligence_ru.Dim.check_contract decision_intelligence_ru.Dim.given
    decision_intelligence_ru.Dim.resolve_projection
    decision_intelligence_ru.ContractProjection.ensure_projection_invariants
    decision_intelligence_ru.Dim.check_confidence decision_intelligence_ru.Dim.min_confidence
    decision_intelligence_ru.Python.get_field decision_intelligence_ru.Dim.safety_rules
    decision_intelligence_ru.Dim.check_invariants
    decision_intelligence_ru.Invariants.evaluate_invariants
    decision_intelligence_ru.Invariants.evaluate_all decision_intelligence_ru.Invariants.skips
    decision_intelligence_ru.Invariants.evaluate_rule
    decision_intelligence_ru.Invariants.evaluate_range_rule
    decision_intelligence_ru.Invariants.range_value
    decision_intelligence_ru.Invariants.get_proposal_value
    decision_intelligence_ru.Invariants.nested_attribute
    decision_intelligence_ru.Python.Text.split_dots decision_intelligence_ru.Invariants.nested_from
    decision_intelligence_ru.Invariants.nested_step decision_intelligence_ru.Invariants.attribute
    decision_intelligence_ru.Python.to_float decision_intelligence_ru.Invariants.check_range
    decision_intelligence_ru.Dim.check_risk decision_intelligence_ru.Dim.risk_score
    decision_intelligence_ru.Dim.check_custom
request_accepted = refl

accept_iff_example :
    ((validate_proposal request end (some strict)).result ≡ ok (accept, code validation_passed))
    ↔ LegalDecision request end (some strict)
accept_iff_example = accept_iff request end (some strict)

spent_aborts : should_abort spent request.proposal.dfid ≡ true
unfolding should_abort record_rejection new_governor get_count decision_intelligence_ru.Dict.get
    decision_intelligence_ru.Governor.set_count decision_intelligence_ru.Dict.set
spent_aborts = refl

strict_goes_on : should_abort strict request.proposal.dfid ≡ false
unfolding should_abort new_governor get_count decision_intelligence_ru.Dict.get
strict_goes_on = refl

charge-validate_proposal_example :
    (h : IntentRetryGovernor) × ((validate_proposal request end (some strict)).governor ≡ some h)
    × (h.max_retries ≡ strict.max_retries)
    × (get_count h.storage "f1"
        ≡ get_count strict.storage "f1"
          + charge (validate_proposal request end (some strict)).result)
charge-validate_proposal_example = charge-validate_proposal request end strict strict_goes_on

abbrev agent : String → AgentRecord Sample
agent status = record {
  contract = end;
  priority = pos 0;
  status = status;
  agent_version = some "1.0.0";
  session_token = none;
  suspension_reason = none;
}

abbrev runtime : String → DecisionRuntime Sample
runtime status = record {
  registry = record { supported_versions = "1.x"; store = ("a1", agent status) ∷ [] };
  context_store = record { sessions = []; states = [] };
  audit = [];
}

abbrev ask : Call Sample
ask = record {
  proposal = order (cents (pos 5000));
  raw_web_context = end;
  dim_context = none;
  allowed_agents = none;
  contract = some (projected (projection_with []));
  use_registry_contract = true;
  custom_validators = [];
  now = pos 1000000;
  record_audit = true;
}

ask_accepted :
    (evaluate_proposal (runtime "ACTIVE") ask none).result ≡ ok (accept, code validation_passed)
unfolding evaluate_proposal decision_intelligence_ru.Runtime.gate get_agent_status
    decision_intelligence_ru.Registry.get_status decision_intelligence_ru.Dict.get
    decision_intelligence_ru.Runtime.gate_status decision_intelligence_ru.Runtime.evaluate_open
    decision_intelligence_ru.Runtime.prepare decision_intelligence_ru.Runtime.working_context
    decision_intelligence_ru.Python.dict_or_empty decision_intelligence_ru.Python.get_field
    decision_intelligence_ru.Python.set_field
    decision_intelligence_ru.ContextStore.compile_working_context
    decision_intelligence_ru.Runtime.resolve_contract
    decision_intelligence_ru.Runtime.record_verdict validate_proposal
    decision_intelligence_ru.Dim.exhausted decision_intelligence_ru.Dim.conclude
    decision_intelligence_ru.Dim.check_gates decision_intelligence_ru.Dim.check_schema
    decision_intelligence_ru.Runtime.request_of decision_intelligence_ru.Dim.check_ttl_window
    decision_intelligence_ru.Dim.resolve_valid_until decision_intelligence_ru.Dim.check_agent
    decision_intelligence_ru.Dim.check_contract decision_intelligence_ru.Dim.given
    decision_intelligence_ru.Dim.resolve_projection
    decision_intelligence_ru.ContractProjection.ensure_projection_invariants
    decision_intelligence_ru.Dim.check_confidence decision_intelligence_ru.Dim.min_confidence
    decision_intelligence_ru.Dim.safety_rules decision_intelligence_ru.Dim.check_invariants
    decision_intelligence_ru.Invariants.evaluate_invariants
    decision_intelligence_ru.Invariants.evaluate_all decision_intelligence_ru.Invariants.skips
    decision_intelligence_ru.Invariants.evaluate_rule
    decision_intelligence_ru.Invariants.evaluate_range_rule
    decision_intelligence_ru.Invariants.range_value
    decision_intelligence_ru.Invariants.get_proposal_value
    decision_intelligence_ru.Invariants.nested_attribute
    decision_intelligence_ru.Python.Text.split_dots decision_intelligence_ru.Invariants.nested_from
    decision_intelligence_ru.Invariants.nested_step decision_intelligence_ru.Invariants.attribute
    decision_intelligence_ru.Python.to_float decision_intelligence_ru.Invariants.check_range
    decision_intelligence_ru.Dim.check_risk decision_intelligence_ru.Dim.risk_score
    decision_intelligence_ru.Dim.check_custom decision_intelligence_ru.Runtime.audit_row
    decision_intelligence_ru.Python.truthy decision_intelligence_ru.Runtime.event_of
    decision_intelligence_ru.Runtime.with_failures
ask_accepted = refl

accept-evaluate_proposal_example : Accepted (runtime "ACTIVE") ask none
accept-evaluate_proposal_example =
    accept-evaluate_proposal (runtime "ACTIVE") ask none (code validation_passed) ask_accepted

not-IsServing : ¬ IsServing (get_agent_status (runtime "SUSPENDED").registry "a1")
unfolding get_agent_status decision_intelligence_ru.Registry.get_status
    decision_intelligence_ru.Dict.get
not-IsServing s = s.0 refl

blocked-evaluate_proposal_example :
    (verdict : ValidationVerdict) × (reason : Reason) × (verdict ≢ accept)
    × (evaluate_proposal (runtime "SUSPENDED") ask none
        ≡ record { result = ok (verdict, reason); runtime = runtime "SUSPENDED"; governor = none })
blocked-evaluate_proposal_example =
    blocked-evaluate_proposal (runtime "SUSPENDED") ask none not-IsServing
