-- ===== src/Escalation.antt =====
-- src/dir_core/escalation.py over the backend `MemoryEscalationStorage` of
-- src/dir_core/storage/memory.py. Times are UTC microseconds. `now` is the clock that a request reads
-- first and `later` the one that its budget token reads. The context and the proposal are the JSON
-- objects that the backend keeps.
pub mod Budget
pub mod FromModel
use decision_intelligence_ru.Prelude.{
  List, Option, String, [], if◌then◌else◌, leb, leb_ℤ, negsuc, none, pos, some, suc, ℕ, ℤ, ◌&&◌,
  ◌*◌, ◌++◌, ◌+◌, ◌-ℤ◌, ◌-◌, ◌==◌, ◌∷◌,
}
use Prim.Native.Nat.{◌/◌}
use decision_intelligence_ru.Dict
use decision_intelligence_ru.Dict.{Dict}
use decision_intelligence_ru.Python.{Fields}

pub data ImpactCategory : Type 0 where
  low_impact high_impact : ImpactCategory

pub data EscalationOutcome : Type 0 where
  granted budget_exhausted : EscalationOutcome

pub data HumanDecision : Type 0 where
  override modify abort : HumanDecision

pub data RequestStatus : Type 0 where
  pending approved rejected : RequestStatus

pub record Token : Type 0 where
  pub agent_id : String
  pub created_at : ℤ

pub record EscalationRecord (F : Type 0) : Type 0 where
  pub agent_id : String
  pub reason : String
  pub context : Fields F
  pub proposal : Fields F
  pub impact : ImpactCategory
  pub status : RequestStatus
  pub resolved_at : Option ℤ
  pub human_decision : Option HumanDecision

pub record EscalationManager (F : Type 0) : Type 0 where
  pub max_escalations_per_hour : ℕ
  pub refill_interval : ℤ
  pub budget : List Token
  pub requests : Dict (EscalationRecord F)

-- a time with its microseconds dropped, as "%Y-%m-%d %H:%M:%S" prints it
unfoldable pub whole_seconds : ℤ → ℤ
whole_seconds (pos n) = pos (n / 1000000 * 1000000)
whole_seconds (negsuc n) = negsuc ((n / 1000000 + 1) * 1000000 - 1)

unfoldable pub count_since : String → ℤ → List Token → ℕ
count_since agent_id since [] = 0
count_since agent_id since (e ∷ budget) =
    let rest = count_since agent_id since budget in
    if e.agent_id == agent_id && leb_ℤ since e.created_at then suc rest else rest

-- `if proposal_json:`
unfoldable pub new_proposal {ℓ} : {A : Type ℓ} → Option A → A → A
new_proposal none old = old
new_proposal (some modified) old = modified

unfoldable pub resolved_status : HumanDecision → RequestStatus
resolved_status abort = rejected
resolved_status override = approved
resolved_status modify = approved

module _ {F : Type 0} where
  unfoldable pub get_window_count : EscalationManager F → String → ℤ → ℕ
  get_window_count m agent_id now =
      count_since agent_id (whole_seconds (now -ℤ m.refill_interval)) m.budget

  unfoldable pub record_budget_token : EscalationManager F → String → ℤ → EscalationManager F
  record_budget_token m agent_id later = record m {
    budget = m.budget ++ record { agent_id = agent_id; created_at = later } ∷ [];
  }

  unfoldable pub insert_request :
      EscalationManager F
      → String
      → String
      → String
      → Fields F
      → Fields F
      → ImpactCategory
      → EscalationManager F
  insert_request m dfid agent_id reason context proposal impact = record m {
    requests =
        Dict.set dfid
          (record {
            agent_id = agent_id;
            reason = reason;
            context = context;
            proposal = proposal;
            impact = impact;
            status = pending;
            resolved_at = none;
            human_decision = none;
          })
          m.requests;
  }

  unfoldable pub request_escalation :
      EscalationManager F
      → String
      → String
      → String
      → Fields F
      → Fields F
      → ImpactCategory
      → ℤ
      → ℤ
      → EscalationManager F × EscalationOutcome
  request_escalation m dfid agent_id reason context proposal impact now later =
      if leb m.max_escalations_per_hour (get_window_count m agent_id now)
      then (m, budget_exhausted)
      else (
        insert_request (record_budget_token m agent_id later) dfid agent_id reason context proposal
            impact,
        granted,
      )

  unfoldable pub resolve_escalation :
      EscalationManager F → String → HumanDecision → Option (Fields F) → ℤ → EscalationManager F
  resolve_escalation m dfid decision modified_proposal now = elim (Dict.get dfid m.requests) [
    | none ↦ m
    | some req ↦ record m {
      requests =
          Dict.set dfid
            (record req {
              status = resolved_status decision;
              resolved_at = some now;
              human_decision = some decision;
              proposal = new_proposal modified_proposal req.proposal;
            })
            m.requests;
    }
  ]

  -- the flows of `get_pending`, in order
  unfoldable pub get_pending : Dict (EscalationRecord F) → List String
  get_pending [] = []
  get_pending ((dfid, req) ∷ requests) =
      let rest = get_pending requests in elim req.status [ pending ↦ dfid ∷ rest | _ ↦ rest ]
