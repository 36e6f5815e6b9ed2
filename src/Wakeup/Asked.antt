-- ===== src/Wakeup/Asked.antt =====
-- Which predicates decide over a wake-up.
use decision_intelligence_ru.Prelude.{Bool, List, [], false, inl, inr, true, ◌∷◌, ◌≡◌, ◌≢◌}
use decision_intelligence_ru.Python.{Fields, Res, Res-cases, ok}
use decision_intelligence_ru.Wakeup.{WakeupPredicate, evaluate, should_wake}

module _ {F : Type 0} where
  -- The answer of the first of the conditions that is not true, or true.
  data Decides (payload : Fields F) : List (WakeupPredicate F) → Res Bool → Type 0 where
    all_true : Decides payload [] (ok true)
    next :
        {predicate : WakeupPredicate F} {rest : List (WakeupPredicate F)} {answer : Res Bool}
        → predicate.condition payload ≡ ok true
        → Decides payload rest answer
        → Decides payload (predicate ∷ rest) answer
    stop :
        {predicate : WakeupPredicate F} {rest : List (WakeupPredicate F)} {answer : Res Bool}
        → predicate.condition payload ≡ answer
        → answer ≢ ok true
        → Decides payload (predicate ∷ rest) answer

  -- Whether an agent is woken is decided by the first condition that is not true, which answers or
  -- raises for all: later ones have no say. Where all are true, the agent is woken.
  should_wake-Decides :
      (payload : Fields F) (predicates : List (WakeupPredicate F))
      → Decides payload predicates (should_wake payload predicates)
  unfolding evaluate should_wake
  should_wake-Decides payload [] = all_true
  should_wake-Decides payload (predicate ∷ rest) = elim (Res-cases (predicate.condition payload)) [
    | inr (e, h) ↦ rw (h, should_wake) (stop h (λ q. cc))
    | inl (true, h) ↦ rw (h, should_wake) (next h (should_wake-Decides payload rest))
    | inl (false, h) ↦ rw (h, should_wake) (stop h (λ q. cc))
  ]
