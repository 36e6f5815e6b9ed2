-- ===== src/Lifecycle/Recorded.antt =====
-- What a run of transitions leaves in the governor and the table.
use decision_intelligence_ru.Prelude.{
  List, Option, String, [], if◌then◌else◌, or_else, some, ℕ, ◌&&◌, ◌+◌, ◌==◌, ◌∷◌,
}
use decision_intelligence_ru.Dict
use decision_intelligence_ru.Governor.{IntentRetryGovernor, record_rejection}
use decision_intelligence_ru.Lifecycle.{
  FlowStatus, MemoryLifecycleStorage, Transition, is_terminal, root_or, transition, value,
}

-- A call that the runtime makes for a flow: a rejected intent, or a transition.
pub data Step : Type 0 where
  reject : String → Step
  move : String → FlowStatus → FlowStatus → Option String → String → Step

unfoldable pub step :
    IntentRetryGovernor × MemoryLifecycleStorage
    → Step
    → IntentRetryGovernor × MemoryLifecycleStorage
step (g, storage) (reject dfid) = ((record_rejection g dfid).0, storage)
step (g, storage) (move dfid a b root now) =
    let (g', storage') = transition dfid a b (some g) (some storage) root now in
    (or_else g' g, or_else storage' storage)

unfoldable pub steps :
    IntentRetryGovernor × MemoryLifecycleStorage
    → List Step
    → IntentRetryGovernor × MemoryLifecycleStorage
steps s [] = s
steps s (c ∷ cs) = steps (step s c) cs

-- The rejections of a flow since it was last closed or aborted.
unfoldable pub open_rejections : String → ℕ → List Step → ℕ
open_rejections d n [] = n
open_rejections d n (reject e ∷ cs) = open_rejections d (if e == d then n + 1 else n) cs
open_rejections d n (move e a b root now ∷ cs) =
    open_rejections d (if e == d && is_terminal b then 0 else n) cs

-- the row that a transition writes
unfoldable pub row : String → FlowStatus → FlowStatus → Option String → String → Transition
row e a b root now = record {
  dfid = e;
  root_dfid = root_or root e;
  from_status = value a;
  to_status = value b;
  created_at = now;
}

-- the rows that a flow's transitions write
unfoldable pub moves : String → List Step → List Transition
moves d [] = []
moves d (reject e ∷ cs) = moves d cs
moves d (move e a b root now ∷ cs) = if e == d then row e a b root now ∷ moves d cs else moves d cs
