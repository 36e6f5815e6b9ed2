-- ===== src/Escalation/FromModel.antt =====
-- src/dir_core/escalation.py: `request_from_model`, with the requests and recommendations of
-- src/dir_core/models.py. The original policy is a Policy, as the field's type says. `dump` is
-- `model_dump_json` and `created` the clock that a new proposal reads.
use decision_intelligence_ru.Prelude.{List, Option, String, none, some, ℤ}
use decision_intelligence_ru.Python.{Fields, Prims, end, field, str}
use decision_intelligence_ru.Models.{PolicyProposal}
use decision_intelligence_ru.Escalation.{
  EscalationManager, EscalationOutcome, ImpactCategory, high_impact, low_impact, request_escalation,
}

pub data EscalationSeverity : Type 0 where
  low medium high critical : EscalationSeverity

pub record Policy (F : Type 0) : Type 0 where
  pub dfid : String
  pub agent_id : String
  pub timestamp : ℤ
  pub proposed_action : String
  pub justification : String
  pub confidence : F
  pub assumptions : List String
  pub expected_outcomes : List String
  pub explain_ref : Option String

pub record EscalationRequest (F : Type 0) : Type 0 where
  pub dfid : String
  pub from_agent_id : String
  pub to_agent_id : Option String
  pub trigger : String
  pub context : Fields F
  pub original_policy : Option (Policy F)
  pub severity : EscalationSeverity

unfoldable pub impact_of : EscalationSeverity → ImpactCategory
impact_of high = high_impact
impact_of critical = high_impact
impact_of low = low_impact
impact_of medium = low_impact

module _ {F : Type 0} ⦃p : Prims F⦄ where
  -- the proposal that is stored with the request
  unfoldable pub stored_proposal : EscalationRequest F → Option (Policy F) → ℤ → PolicyProposal F
  stored_proposal escalation (some orig) created = record {
    dfid = orig.dfid;
    agent_id = orig.agent_id;
    policy_kind = orig.proposed_action;
    params = end;
    context_ref = none;
    execution_constraints = end;
    valid_until = none;
    created_at = created;
    confidence = orig.confidence;
    justification = some orig.justification;
    explain_ref = none;
  }
  stored_proposal escalation none created = record {
    dfid = escalation.dfid;
    agent_id = escalation.from_agent_id;
    policy_kind = "escalation";
    params = field "trigger" (str escalation.trigger) end;
    context_ref = none;
    execution_constraints = end;
    valid_until = none;
    created_at = created;
    confidence = p.dec 1 0;
    justification = none;
    explain_ref = none;
  }

  unfoldable pub request_from_model :
      (PolicyProposal F → Fields F)
      → EscalationManager F
      → EscalationRequest F
      → ℤ
      → ℤ
      → ℤ
      → EscalationManager F × EscalationOutcome
  request_from_model dump m escalation created now later =
      request_escalation m escalation.dfid escalation.from_agent_id escalation.trigger
        escalation.context (dump (stored_proposal escalation escalation.original_policy created))
        (impact_of escalation.severity) now later
