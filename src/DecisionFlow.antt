-- ===== src/DecisionFlow.antt =====
-- src/dir_core/models.py: `DecisionFlow`, the container of one decision's artefacts, and its timeline.
-- `now` is the clock, `decimal` is `str` of an integer, `fixed2` is the format `.2f`. The printed
-- report of the timeline is not modelled, nor are an event type given as a text and the time stamps
-- of the artefacts themselves.
pub mod Timeline
use Prim.Native.String.{count}
use decision_intelligence_ru.Prelude.{
  List, Option, String, [], if◌then◌else◌, length, ltb, mem, none, some, ℕ, ℤ, ◌++◌, ◌==◌, ◌||◌,
  ◌∷◌,
}
use decision_intelligence_ru.Python.{Fields, end, field, num, str}
use decision_intelligence_ru.Python.Text.{first_chars, ◌+s◌}
use decision_intelligence_ru.Models.{PolicyProposal}

pub data FlowTimelineEventType : Type 0 where
  flow_started context_snapshot explain policy self_check proposal : FlowTimelineEventType
  validation execution escalation child_flow_created : FlowTimelineEventType
  flow_completed flow_aborted : FlowTimelineEventType

pub data DecisionFlowStatus : Type 0 where
  in_progress completed escalated aborted : DecisionFlowStatus

pub record ContextSnapshot (F : Type 0) : Type 0 where
  pub snapshot_id : String
  pub dfid : String
  pub data_fields : Fields F
  pub source : String

pub record ExplainResult (F : Type 0) : Type 0 where
  pub dfid : String
  pub agent_id : String
  pub narrative : String
  pub identified_signals : List String
  pub risks : List String
  pub opportunities : List String
  pub context_summary : Fields F

pub record Policy (F : Type 0) : Type 0 where
  pub dfid : String
  pub agent_id : String
  pub proposed_action : String
  pub justification : String
  pub confidence : F
  pub assumptions : List String
  pub expected_outcomes : List String
  pub explain_ref : Option String

pub data EscalationSeverity : Type 0 where
  low medium high critical : EscalationSeverity

-- `str(severity)`
unfoldable pub severity_text : EscalationSeverity → String
severity_text low = "LOW"
severity_text medium = "MEDIUM"
severity_text high = "HIGH"
severity_text critical = "CRITICAL"

pub record EscalationRequest (F : Type 0) : Type 0 where
  pub dfid : String
  pub from_agent_id : String
  pub to_agent_id : Option String
  pub trigger : String
  pub context : Fields F
  pub original_policy : Option (Policy F)
  pub severity : EscalationSeverity

pub record ExecutionIntent (F : Type 0) : Type 0 where
  pub dfid : String
  pub idempotency_key : String
  pub policy_kind : String
  pub params : Fields F

pub record FlowEvent (F : Type 0) : Type 0 where
  pub timestamp : ℤ
  pub event_type : FlowTimelineEventType
  pub agent_id : Option String
  pub summary : String
  pub details : Fields F

pub record DecisionFlow (F : Type 0) : Type 0 where
  pub dfid : String
  pub parent_dfid : Option String
  pub completed_at : Option ℤ
  pub context_snapshot : Option (ContextSnapshot F)
  pub explain_results : List (ExplainResult F)
  pub policies : List (Policy F)
  pub proposals : List (PolicyProposal F)
  pub escalations : List (EscalationRequest F)
  pub execution_intents : List (ExecutionIntent F)
  pub timeline : List (FlowEvent F)
  pub status : DecisionFlowStatus
  pub outcome_summary : Option String
  pub participating_agents : List String
  pub child_dfids : List String

-- `if agent_id and agent_id not in agents: agents.append(agent_id)`
unfoldable pub enlist : Option String → List String → List String
enlist none agents = agents
enlist (some agent) agents =
    if agent == "" || mem agent agents then agents else agents ++ agent ∷ []

-- `narrative[:100] + "..." if len(narrative) > 100 else narrative`
unfoldable pub shortened : String → String
shortened narrative =
    if ltb 100 (count narrative) then first_chars 100 narrative +s "..." else narrative

module _ {F : Type 0} where
  abbrev pub new_flow : String → Option String → DecisionFlow F
  new_flow dfid parent_dfid = record {
    dfid = dfid;
    parent_dfid = parent_dfid;
    completed_at = none;
    context_snapshot = none;
    explain_results = [];
    policies = [];
    proposals = [];
    escalations = [];
    execution_intents = [];
    timeline = [];
    status = in_progress;
    outcome_summary = none;
    participating_agents = [];
    child_dfids = [];
  }

  unfoldable pub add_event : DecisionFlow F → FlowEvent F → DecisionFlow F
  add_event flow event = record flow {
    timeline = flow.timeline ++ event ∷ [];
    participating_agents = enlist event.agent_id flow.participating_agents;
  }

  abbrev pub new_event : ℤ → FlowTimelineEventType → Option String → String → Fields F → FlowEvent F
  new_event now type agent_id summary details = record {
    timestamp = now;
    event_type = type;
    agent_id = agent_id;
    summary = summary;
    details = details;
  }

  unfoldable pub set_context : ℤ → DecisionFlow F → ContextSnapshot F → DecisionFlow F
  set_context now flow snapshot =
      add_event (record flow { context_snapshot = some snapshot })
        (new_event now context_snapshot none ("Context bound: " +s snapshot.snapshot_id)
          (field "snapshot_id" (str snapshot.snapshot_id) end))

  unfoldable pub record_explain :
      (ℕ → String) → ℤ → DecisionFlow F → ExplainResult F → DecisionFlow F
  record_explain decimal now flow result =
      add_event (record flow { explain_results = flow.explain_results ++ result ∷ [] })
        (new_event now explain (some result.agent_id)
          ("Explain: "
            +s decimal (length result.identified_signals)
            +s " signals, "
            +s decimal (length result.risks)
            +s " risks")
          (field "narrative" (str (shortened result.narrative)) end))

  unfoldable pub record_policy : (F → String) → ℤ → DecisionFlow F → Policy F → DecisionFlow F
  record_policy fixed2 now flow result =
      add_event (record flow { policies = flow.policies ++ result ∷ [] })
        (new_event now policy (some result.agent_id)
          ("Policy: " +s result.proposed_action +s " (conf=" +s fixed2 result.confidence +s ")")
          (field "action" (str result.proposed_action)
            (field "confidence" (num result.confidence) end)))

  unfoldable pub record_proposal : ℤ → DecisionFlow F → PolicyProposal F → DecisionFlow F
  record_proposal now flow result =
      add_event (record flow { proposals = flow.proposals ++ result ∷ [] })
        (new_event now proposal (some result.agent_id) ("Proposal: " +s result.policy_kind) (
          field "policy_kind" (str result.policy_kind)
            (field "confidence" (num result.confidence) end)))

  unfoldable pub record_escalation : ℤ → DecisionFlow F → EscalationRequest F → DecisionFlow F
  record_escalation now flow request =
      record (add_event (record flow { escalations = flow.escalations ++ request ∷ [] })
        (new_event now escalation (some request.from_agent_id)
          ("Escalated: " +s request.trigger +s " (" +s severity_text request.severity +s ")")
          (field "trigger" (str request.trigger)
            (field "severity" (str (severity_text request.severity)) end)))) { status = escalated }

  unfoldable pub record_execution : ℤ → DecisionFlow F → ExecutionIntent F → DecisionFlow F
  record_execution now flow intent =
      add_event (record flow { execution_intents = flow.execution_intents ++ intent ∷ [] })
        (new_event now execution none ("Executed: " +s intent.policy_kind)
          (field "idempotency_key" (str intent.idempotency_key) end))

  unfoldable pub complete : ℤ → DecisionFlow F → String → DecisionFlow F
  complete now flow summary =
      add_event
        (record flow {
          completed_at = some now;
          status = completed;
          outcome_summary = some summary;
        })
        (new_event now flow_completed none summary end)

  unfoldable pub abort : ℤ → DecisionFlow F → String → DecisionFlow F
  abort now flow reason =
      add_event
        (record flow { completed_at = some now; status = aborted; outcome_summary = some reason })
        (new_event now flow_aborted none reason end)

  unfoldable pub create_child_flow : ℤ → DecisionFlow F → String → DecisionFlow F
  create_child_flow now flow child_dfid =
      add_event (record flow { child_dfids = flow.child_dfids ++ child_dfid ∷ [] })
        (new_event now child_flow_created none ("Child flow: " +s child_dfid)
          (field "child_dfid" (str child_dfid) end))
