-- ===== src/Tests/Stores.antt =====
-- The theorems on the stores beside the registry and the locks, and on arbitration, at concrete data.
use decision_intelligence_ru.Ledger.AppendOnly.{get_by_dfid-append_all}
use decision_intelligence_ru.Prelude.{
  List, Option, String, [], arith, eq_iff, false≢true, if◌then◌else◌, leb, none, pos, refl, some,
  true, ℕ, ℤ, ◌+◌, ◌∷◌, ◌≡◌, ◌≢◌, ◌⊎◌,
}
use decision_intelligence_ru.Dict.{Dict}
use decision_intelligence_ru.Python.{end, ok}
use decision_intelligence_ru.Python.Text.{◌+s◌}
use decision_intelligence_ru.Python.Sample.{Sample, cents, sample}
use decision_intelligence_ru.Models.{PolicyProposal}
use decision_intelligence_ru.Idempotency.{get_cached, idempotency_key, raw_key, run_keyed}
use decision_intelligence_ru.Idempotency.Keys.{NoColon, idempotency_key_injective, key-collision}
use decision_intelligence_ru.Idempotency.Once.{run-none, run-run}
use decision_intelligence_ru.Governor.{new_governor, should_abort}
use decision_intelligence_ru.Governor.Counting
use decision_intelligence_ru.Governor.Counting.{calls, rejections, should_abort-calls}
use decision_intelligence_ru.Escalation.{EscalationManager, low_impact}
use decision_intelligence_ru.Escalation.Budget
use decision_intelligence_ru.Escalation.Budget.{IsBudgeted, calls-IsBudgeted, count_within}
use decision_intelligence_ru.Saga
use decision_intelligence_ru.Saga.{
  DirtyState, SagaCompensation, execute_compensation, get_dirty_state,
}
use decision_intelligence_ru.Saga.Clearing.{dirty-execute_compensation, succeeded}
use decision_intelligence_ru.Ledger.{ProofCarryingIntent, append_all, entry_of, get_by_dfid}
use decision_intelligence_ru.Dict
use decision_intelligence_ru.Tests.{order, pydantic}

-- a call that returns 7 and counts itself, and one that returns nothing
abbrev seven : ℕ → Option ℕ × ℕ
seven n = (some 7, n + 1)

abbrev nothing : ℕ → Option ℕ × ℕ
nothing n = (none, n + 1)

abbrev empty : Dict (Option ℕ)
empty = []

ran : (run_keyed "k" seven empty 0).2 ≡ some 7
unfolding run_keyed get_cached Dict.get
ran = refl

run-run_example :
    run_keyed "k" seven (run_keyed "k" seven empty 0).0 (run_keyed "k" seven empty 0).1
    ≡ run_keyed "k" seven empty 0
run-run_example = run-run "k" seven empty 0 7 ran

not_cached : get_cached "k" empty ≡ none
unfolding get_cached Dict.get
not_cached = refl

run-none_example :
    (run_keyed "k" nothing (run_keyed "k" nothing empty 0).0 (run_keyed "k" nothing empty 0).1).1
    ≡ 2
run-none_example = run-none "k" nothing empty 0 not_cached refl

abbrev key_k : String
key_k = "k"

abbrev key_j : String
key_j = "j"

other_key : key_k ≢ key_j
other_key e = false≢true ((eq_iff key_k key_j).1 e)

key-collision_example :
    idempotency_key (λ s. s) "a" ("b" +s ":" +s "c") "{}"
    ≡ idempotency_key (λ s. s) ("a" +s ":" +s "b") "c" "{}"
key-collision_example = key-collision (λ s. s) "a" "b" "c" "{}"

should_abort-calls_example :
    should_abort (calls (new_governor 2) (Counting.reject "f1" ∷ Counting.reject "f1" ∷ [])) "f1"
    ≡ leb 2 (rejections "f1" 0 (Counting.reject "f1" ∷ Counting.reject "f1" ∷ []))
should_abort-calls_example =
    should_abort-calls 2 "f1" (Counting.reject "f1" ∷ Counting.reject "f1" ∷ [])

-- a saga of which every revert succeeds, and a dirty flow
abbrev saga : SagaCompensation Sample
saga = record {
  revert_callback = some (λ dfid state. ok true);
  close_all_callback = none;
  alert_human_callback = none;
}

abbrev dirty : Dict (DirtyState Sample)
dirty = ("f1", record { failed_step = "pay"; partial_state = end }) ∷ []

dirty-execute_compensation_example :
    get_dirty_state (execute_compensation saga dirty "f1" Saga.revert).0 "f1" ≡ (
      if succeeded (execute_compensation saga dirty "f1" Saga.revert).1
      then none
      else get_dirty_state dirty "f1")
dirty-execute_compensation_example = dirty-execute_compensation saga dirty "f1" Saga.revert "f1"

-- two intents for one flow
abbrev intent : String → ProofCarryingIntent Sample
intent hash = record {
  dfid = "f1";
  intent_payload = end;
  context_ref = "c1";
  evidence_hash = hash;
  signature = "";
}

abbrev intents : List (ProofCarryingIntent Sample × String)
intents = (intent "h1", "a1") ∷ (intent "h2", "a2") ∷ []

get_by_dfid-append_all_example :
    get_by_dfid "f1" (append_all [] intents) ≡ some (entry_of (intent "h1") "a1")
unfolding decision_intelligence_ru.Ledger.AppendOnly.first_intent
get_by_dfid-append_all_example = get_by_dfid-append_all "f1" intents

abbrev hold : PolicyProposal Sample
hold = record (order (cents (pos 100))) { policy_kind = "HOLD" }

-- an escalation manager of one escalation in an hour, and two requests in a minute
abbrev manager : EscalationManager Sample
manager = record {
  max_escalations_per_hour = 1;
  refill_interval = pos 3600000000;
  budget = [];
  requests = [];
}

abbrev ask_human : ℤ → Budget.Call Sample
ask_human now = Budget.request "f1" "a1" "why" end end low_impact now now

nothing_spent : IsBudgeted manager
unfolding count_within
nothing_spent agent_id until = omega arith

calls-IsBudgeted_example :
    IsBudgeted (Budget.calls manager (ask_human (pos 0) ∷ ask_human (pos 60000000) ∷ []))
calls-IsBudgeted_example =
    calls-IsBudgeted manager (ask_human (pos 0) ∷ ask_human (pos 60000000) ∷ [])
      (omega arith, (omega arith, tt)) nothing_spent

-- ids with no colon
abbrev id_a : String
id_a = "a"

no_colon : NoColon id_a
no_colon = (omega arith, tt)

idempotency_key_injective_example :
    ((id_a ≡ id_a) × (id_a ≡ id_a) × (id_a ≡ id_a))
    ⊎ ((raw_key id_a id_a id_a ≢ raw_key id_a id_a id_a)
        × (raw_key id_a id_a id_a ≡ raw_key id_a id_a id_a))
idempotency_key_injective_example =
    idempotency_key_injective (λ s. s) id_a id_a id_a id_a id_a id_a no_colon no_colon no_colon
      no_colon refl
