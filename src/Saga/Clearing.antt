-- ===== src/Saga/Clearing.antt =====
-- When a compensation takes a flow out of the dirty state.
use decision_intelligence_ru.Prelude.{
  Bool, Option-cases, String, arith, false, if◌then◌else◌, inl, inr, none, refl, true, ◌&&◌, ◌==◌,
  ◌≡◌,
}
use decision_intelligence_ru.Dict.{Dict}
use decision_intelligence_ru.Dict.Laws.{get-pop}
use decision_intelligence_ru.Python.{Res, ok, raise}
use decision_intelligence_ru.Saga.{
  CompensationAction, CompensationResult, DirtyState, SagaCompensation, alert_human, clear_dirty,
  close_all, compensate, execute_compensation, finish, get_dirty_state, noop, revert,
}

-- The actions that undo what the flow did.
abbrev pub undoes : CompensationAction → Bool
undoes revert = true
undoes close_all = true
undoes alert_human = false
undoes noop = false

abbrev pub succeeded : Res CompensationResult → Bool
succeeded (ok r) = r.success
succeeded (raise e) = false

module _ {F : Type 0} where
  -- what a flow's dirty state is after a compensation
  abbrev pub Cleared :
      Dict (DirtyState F)
      → String
      → CompensationAction
      → Dict (DirtyState F) × Res CompensationResult
      → Type 0
  Cleared dirty dfid action after =
      (flow : String)
      → get_dirty_state after.0 flow ≡ (
          if dfid == flow && (undoes action && succeeded after.1)
          then none
          else get_dirty_state dirty flow)

  finish-Cleared :
      (dirty : Dict (DirtyState F)) (dfid message : String) (action : CompensationAction)
      (answer : Res Bool)
      → undoes action ≡ true
      → Cleared dirty dfid action (finish dirty dfid message answer)
  unfolding finish clear_dirty get_dirty_state
  finish-Cleared dirty dfid message action (raise e) u flow = ground arith
  finish-Cleared dirty dfid message action (ok true) u flow =
      ground (arith, u, get-pop dfid flow dirty)
  finish-Cleared dirty dfid message action (ok false) u flow = ground (arith, u)

  compensate-Cleared :
      (saga : SagaCompensation F) (dirty : Dict (DirtyState F)) (dfid : String)
      (state : DirtyState F) (action : CompensationAction)
      → Cleared dirty dfid action (compensate saga dirty dfid state action)
  unfolding compensate
  compensate-Cleared saga dirty dfid state noop flow = ground arith
  compensate-Cleared saga dirty dfid state alert_human flow =
      elim (Option-cases saga.alert_human_callback) [
        | inl e ↦ rw (e, compensate) (ground arith)
        | inr (callback, e) ↦ rw (e, compensate) (ground arith)
      ]
  compensate-Cleared saga dirty dfid state revert flow = elim (Option-cases saga.revert_callback) [
    | inl e ↦ rw (e, compensate) (ground arith)
    | inr (callback, e) ↦
        rw (e, compensate)
          (finish-Cleared dirty dfid "REVERT" revert (callback dfid state.partial_state) refl flow)
  ]
  compensate-Cleared saga dirty dfid state close_all flow =
      elim (Option-cases saga.close_all_callback) [
        | inl e ↦ rw (e, compensate) (ground arith)
        | inr (callback, e) ↦
            rw (e, compensate)
              (finish-Cleared dirty dfid "CLOSE_ALL" close_all (callback dfid) refl flow)
      ]

  -- After `execute_compensation` a flow has left the dirty state exactly where it is the flow
  -- compensated, the action is REVERT or CLOSE_ALL, and the call reports success; in every other
  -- case, exceptions of the callback included, each flow's dirty state is what it was.
  pub dirty-execute_compensation :
      (saga : SagaCompensation F) (dirty : Dict (DirtyState F)) (dfid : String)
      (action : CompensationAction)
      → Cleared dirty dfid action (execute_compensation saga dirty dfid action)
  unfolding execute_compensation get_dirty_state
  dirty-execute_compensation saga dirty dfid action flow =
      elim (Option-cases (get_dirty_state dirty dfid)) [
        | inl e ↦ rw (e, execute_compensation) (ground arith)
        | inr (state, e) ↦
            rw (e, execute_compensation) (compensate-Cleared saga dirty dfid state action flow)
      ]
