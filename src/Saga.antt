-- ===== src/Saga.antt =====
-- src/dir_core/saga.py over the backend `MemorySagaStorage` of src/dir_core/storage/memory.py. The
-- callbacks are arguments; a callback may raise. A partial state is kept as the dict that its JSON
-- text stands for.
pub mod Clearing
use decision_intelligence_ru.Prelude.{
  Bool, List, Option, String, false, if◌then◌else◌, none, some, true,
}
use decision_intelligence_ru.Dict
use decision_intelligence_ru.Dict.{Dict}
use decision_intelligence_ru.Python.{Exc, Fields, Res, ok, raise}

pub data CompensationAction : Type 0 where
  revert close_all alert_human noop : CompensationAction

pub record DirtyState (F : Type 0) : Type 0 where
  pub failed_step : String
  pub partial_state : Fields F

pub record CompensationResult : Type 0 where
  pub success : Bool
  pub message : String

pub record SagaCompensation (F : Type 0) : Type 0 where
  pub revert_callback : Option (String → Fields F → Res Bool)
  pub close_all_callback : Option (String → Res Bool)
  -- the exception that it raises, if it does
  pub alert_human_callback : Option (String → Fields F → Option Exc)

unfoldable pub alerted : Option Exc → Res CompensationResult
alerted none = ok (record { success = true; message = "ALERT_HUMAN" })
alerted (some e) = raise e

module _ {F : Type 0} where
  unfoldable pub mark_dirty : Dict (DirtyState F) → String → String → Fields F → Dict (DirtyState F)
  mark_dirty dirty dfid failed_step partial_state =
      Dict.set dfid (record { failed_step = failed_step; partial_state = partial_state }) dirty

  unfoldable pub get_dirty_flows : Dict (DirtyState F) → List String
  get_dirty_flows dirty = Dict.keys dirty

  unfoldable pub get_dirty_state : Dict (DirtyState F) → String → Option (DirtyState F)
  get_dirty_state dirty dfid = Dict.get dfid dirty

  unfoldable pub clear_dirty : Dict (DirtyState F) → String → Dict (DirtyState F)
  clear_dirty dirty dfid = Dict.pop dfid dirty

  -- the return after a callback's answer, which clears the flow where it is true
  unfoldable pub finish :
      Dict (DirtyState F)
      → String
      → String
      → Res Bool
      → Dict (DirtyState F) × Res CompensationResult
  finish dirty dfid message (raise e) = (dirty, raise e)
  finish dirty dfid message (ok done) = (
    (if done then clear_dirty dirty dfid else dirty),
    ok (record { success = done; message = message }),
  )

  unfoldable pub compensate :
      SagaCompensation F
      → Dict (DirtyState F)
      → String
      → DirtyState F
      → CompensationAction
      → Dict (DirtyState F) × Res CompensationResult
  compensate saga dirty dfid state noop = (dirty, ok (record { success = true; message = "NOOP" }))
  compensate saga dirty dfid state revert = elim saga.revert_callback [
    | none ↦ (dirty, ok (record { success = false; message = "No revert callback" }))
    | some callback ↦ finish dirty dfid "REVERT" (callback dfid state.partial_state)
  ]
  compensate saga dirty dfid state close_all = elim saga.close_all_callback [
    | none ↦ (dirty, ok (record { success = false; message = "No close_all callback" }))
    | some callback ↦ finish dirty dfid "CLOSE_ALL" (callback dfid)
  ]
  compensate saga dirty dfid state alert_human = elim saga.alert_human_callback [
    | none ↦ (dirty, ok (record { success = false; message = "No alert_human callback" }))
    | some callback ↦ (dirty, alerted (callback dfid state.partial_state))
  ]

  unfoldable pub execute_compensation :
      SagaCompensation F
      → Dict (DirtyState F)
      → String
      → CompensationAction
      → Dict (DirtyState F) × Res CompensationResult
  execute_compensation saga dirty dfid action = elim (get_dirty_state dirty dfid) [
    | none ↦ (dirty, ok (record { success = false; message = "Flow not in dirty state" }))
    | some state ↦ compensate saga dirty dfid state action
  ]
