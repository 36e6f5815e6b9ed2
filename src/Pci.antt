-- ===== src/Pci.antt =====
-- src/dir_core/pci.py: the evidence hash of a proof-carrying intent, and its check. SHA-256 is the
-- parameter `digest`, a function of the hashed text; the canonical JSON of a proposal is the answer
-- of the caller's function.
pub mod Binding
use decision_intelligence_ru.Prelude.{Bool, String, false, if◌then◌else◌, not, true, ◌==◌}
use decision_intelligence_ru.Ledger.{ProofCarryingIntent}
use decision_intelligence_ru.Python.{Fields}
use decision_intelligence_ru.Python.Text.{◌+s◌}

unfoldable pub evidence_text : String → String → String → String → String
evidence_text dfid context_hash contract_hash proposal_params =
    dfid +s context_hash +s contract_hash +s proposal_params

unfoldable pub compute_evidence_hash :
    (String → String) → String → String → String → String → String
compute_evidence_hash digest dfid context_hash contract_hash proposal_params =
    digest (evidence_text dfid context_hash contract_hash proposal_params)

module _ {F : Type 0} where
  -- `ProofChecker.verify`, with the answers of the first two callables
  unfoldable pub verify :
      (String → String)
      → ProofCarryingIntent F
      → String
      → String
      → (Fields F → String)
      → Bool × String
  verify digest pci context_hash contract_hash get_proposal_params =
      let expected_hash =
        compute_evidence_hash digest pci.dfid context_hash contract_hash
          (get_proposal_params pci.intent_payload) in
      if not (expected_hash == pci.evidence_hash) then (false, "Evidence Invalid") else (true, "OK")
