-- ===== src/Lifecycle.antt =====
-- src/dir_core/lifecycle.py over the backend `MemoryLifecycleStorage` of
-- src/dir_core/storage/memory.py. A governor or a storage that is `none` is Python's None; the
-- SQLite path, the other way to name a storage, is not modelled. `now` is the text of the clock.
pub mod Recorded
use decision_intelligence_ru.Prelude.{
  Bool, List, Option, String, [], false, if◌then◌else◌, keep, none, some, true, ◌++◌, ◌==◌, ◌∷◌,
}
use decision_intelligence_ru.Governor.{IntentRetryGovernor, reset}

pub data FlowStatus : Type 0 where
  created active validating accepted aborted escalated executing closed : FlowStatus
  partial_success_dirty maintenance_mode : FlowStatus

-- `StrEnum.value`
unfoldable pub value : FlowStatus → String
value created = "CREATED"
value active = "ACTIVE"
value validating = "VALIDATING"
value accepted = "ACCEPTED"
value aborted = "ABORTED"
value escalated = "ESCALATED"
value executing = "EXECUTING"
value closed = "CLOSED"
value partial_success_dirty = "PARTIAL_SUCCESS_DIRTY"
value maintenance_mode = "MAINTENANCE_MODE"

-- a row of `flow_transitions`
pub record Transition : Type 0 where
  pub dfid : String
  pub root_dfid : String
  pub from_status : String
  pub to_status : String
  pub created_at : String

-- `MemoryLifecycleStorage._transitions`
abbrev pub MemoryLifecycleStorage : Type 0
MemoryLifecycleStorage = List Transition

-- `root_dfid or dfid`
unfoldable pub root_or : Option String → String → String
root_or none dfid = dfid
root_or (some root) dfid = if root == "" then dfid else root

unfoldable pub record_transition :
    MemoryLifecycleStorage
    → String
    → String
    → String
    → Option String
    → String
    → MemoryLifecycleStorage
record_transition storage dfid from_status to_status root_dfid now =
    storage
    ++ record {
      dfid = dfid;
      root_dfid = root_or root_dfid dfid;
      from_status = from_status;
      to_status = to_status;
      created_at = now;
    }
      ∷ []

unfoldable pub of_flow : String → Transition → Bool
of_flow dfid t = t.dfid == dfid

unfoldable pub get_transitions : MemoryLifecycleStorage → Option String → List Transition
get_transitions storage none = storage
get_transitions storage (some dfid) = keep (of_flow dfid) storage

-- `to_status in (FlowStatus.CLOSED, FlowStatus.ABORTED)`
unfoldable pub is_terminal : FlowStatus → Bool
is_terminal closed = true
is_terminal aborted = true
is_terminal _ = false

unfoldable pub reset_at :
    FlowStatus → String → Option IntentRetryGovernor → Option IntentRetryGovernor
reset_at to_status dfid none = none
reset_at to_status dfid (some g) = some (if is_terminal to_status then reset g dfid else g)

unfoldable pub record_at :
    String
    → FlowStatus
    → FlowStatus
    → Option String
    → String
    → Option MemoryLifecycleStorage
    → Option MemoryLifecycleStorage
record_at dfid from_status to_status root_dfid now none = none
record_at dfid from_status to_status root_dfid now (some storage) =
    some (record_transition storage dfid (value from_status) (value to_status) root_dfid now)

unfoldable pub transition :
    String
    → FlowStatus
    → FlowStatus
    → Option IntentRetryGovernor
    → Option MemoryLifecycleStorage
    → Option String
    → String
    → Option IntentRetryGovernor × Option MemoryLifecycleStorage
transition dfid from_status to_status retry_governor storage root_dfid now = (
  reset_at to_status dfid retry_governor,
  record_at dfid from_status to_status root_dfid now storage,
)
