-- ===== src/Tests/Flows.antt =====
-- The theorems on proof-carrying intents, the lifecycle and the containers of decision flows at
-- concrete data.
use decision_intelligence_ru.Prelude.{
  List, String, [], false, none, pos, refl, some, true, ℕ, ℤ, ◌∷◌, ◌≡◌, ◌≢◌, ◌⊎◌,
}
use decision_intelligence_ru.Python.{Fields, end}
use decision_intelligence_ru.Python.Sample.{Sample, sample}
use decision_intelligence_ru.Python.Text.{◌+s◌}
use decision_intelligence_ru.Pci
use decision_intelligence_ru.Pci.Binding.{verify-binds, verify-sealed}
use decision_intelligence_ru.Ledger.{ProofCarryingIntent}
use decision_intelligence_ru.Lifecycle.{aborted, active, created}
use decision_intelligence_ru.Lifecycle.Recorded
use decision_intelligence_ru.DecisionFlow.{
  ExecutionIntent, FlowEvent, new_event, new_flow, validation,
}
use decision_intelligence_ru.DecisionFlow.Timeline
use decision_intelligence_ru.DecisionFlow.Timeline.{new_flow-IsConsistent}

abbrev digest : String → String
digest s = "#" +s s

abbrev pci : ProofCarryingIntent Sample
pci = record {
  dfid = "f1";
  intent_payload = end;
  context_ref = "c";
  evidence_hash = "#f1c1k1p";
  signature = "";
}

abbrev context : String
context = "c1"

abbrev contract : String
contract = "k1"

abbrev params : Fields Sample → String
params fs = "p"

abbrev other_context : String
other_context = "c2"

-- another context hash
verify-sealed_example :
    (Pci.verify digest pci context contract params ≡ (true, "OK"))
    × ((Pci.verify digest (record pci { intent_payload = end }) other_context contract params
          ≡ (false, "Evidence Invalid"))
        ⊎ (((context ≡ other_context)
              × (contract ≡ contract)
              × (params pci.intent_payload ≡ params end))
            ⊎ ((Pci.evidence_text pci.dfid context contract (params pci.intent_payload)
                  ≢ Pci.evidence_text pci.dfid other_context contract (params end))
                × (digest (Pci.evidence_text pci.dfid context contract (params pci.intent_payload))
                    ≡ digest (Pci.evidence_text pci.dfid other_context contract (params end))))))
unfolding Pci.compute_evidence_hash Pci.evidence_text
verify-sealed_example =
    verify-sealed digest pci end context contract other_context contract params refl refl refl

verify-binds_example :
    ((pci.dfid ≡ pci.dfid)
      × (context ≡ context)
      × (contract ≡ contract)
      × (params pci.intent_payload ≡ params pci.intent_payload))
    ⊎ ((Pci.evidence_text pci.dfid context contract (params pci.intent_payload)
          ≢ Pci.evidence_text pci.dfid context contract (params pci.intent_payload))
        × (digest (Pci.evidence_text pci.dfid context contract (params pci.intent_payload))
            ≡ digest (Pci.evidence_text pci.dfid context contract (params pci.intent_payload))))
unfolding Pci.verify Pci.compute_evidence_hash Pci.evidence_text
verify-binds_example =
    verify-binds digest pci pci context contract context contract params refl refl refl refl refl
      refl

abbrev history : List Recorded.Step
history =
    Recorded.move "f1" created active none "t1"
    ∷ Recorded.reject "f1"
    ∷ Recorded.move "f2" created active (some "f1") "t2"
    ∷ Recorded.move "f1" active aborted none "t3"
    ∷ Recorded.reject "f1"
    ∷ []

open_example : Recorded.open_rejections "f1" 0 history ≡ 1
unfolding Recorded.open_rejections decision_intelligence_ru.Lifecycle.is_terminal
open_example = refl

abbrev intent : ExecutionIntent Sample
intent = record { dfid = "f1"; idempotency_key = "k"; policy_kind = "BUY"; params = end }

abbrev note : FlowEvent Sample
note = new_event (pos 7) validation (some "dim") "checked" end

abbrev records : List (ℤ × Timeline.Call Sample)
records =
    (pos 1, Timeline.add note)
    ∷ (pos 2, Timeline.note_execution intent)
    ∷ (pos 3, Timeline.add note)
    ∷ (pos 4, Timeline.finish "done")
    ∷ []

abbrev decimal : ℕ → String
decimal n = "n"

abbrev fixed2 : Sample → String
fixed2 x = "0.90"

new_flow-IsConsistent_example :
    Timeline.IsConsistent (Timeline.calls decimal fixed2 (new_flow "f1" none) records)
new_flow-IsConsistent_example = new_flow-IsConsistent decimal fixed2 "f1" none records

agents_example :
    (Timeline.calls decimal fixed2 (new_flow "f1" none) records).participating_agents ≡ "dim" ∷ []
unfolding Timeline.calls Timeline.call decision_intelligence_ru.DecisionFlow.complete
    decision_intelligence_ru.DecisionFlow.add_event decision_intelligence_ru.DecisionFlow.enlist
    decision_intelligence_ru.Prelude.mem decision_intelligence_ru.DecisionFlow.record_execution
agents_example = refl
