-- ===== src/Ledger.antt =====
-- src/dir_core/ledger.py with a storage, over the backend `MemoryDecisionLedgerStorage` of
-- src/dir_core/storage/memory.py. The time stamp of an entry and its root
-- flow, which no reader here uses, are left out.
pub mod AppendOnly
use decision_intelligence_ru.Prelude.{
  Bool, List, Option, String, [], false, if◌then◌else◌, none, some, ◌++◌, ◌==◌, ◌||◌, ◌∷◌,
}
use decision_intelligence_ru.Python.{Fields}

pub record ProofCarryingIntent (F : Type 0) : Type 0 where
  pub dfid : String
  pub intent_payload : Fields F
  pub context_ref : String
  pub evidence_hash : String
  pub signature : String

pub record LedgerEntry (F : Type 0) : Type 0 where
  pub dfid : String
  pub agent_id : String
  pub intent_payload : Fields F
  pub context_ref : String
  pub evidence_hash : String
  pub signature : String

module _ {F : Type 0} where
  unfoldable pub entry_of : ProofCarryingIntent F → String → LedgerEntry F
  entry_of pci agent_id = record {
    dfid = pci.dfid;
    agent_id = agent_id;
    intent_payload = pci.intent_payload;
    context_ref = pci.context_ref;
    evidence_hash = pci.evidence_hash;
    signature = pci.signature;
  }

  -- `get_by_dfid`
  unfoldable pub get_by_dfid : String → List (LedgerEntry F) → Option (LedgerEntry F)
  get_by_dfid dfid [] = none
  get_by_dfid dfid (entry ∷ entries) =
      if entry.dfid == dfid then some entry else get_by_dfid dfid entries

  -- `any(e["dfid"] == pci.dfid for e in self._entries)`
  unfoldable pub committed : String → List (LedgerEntry F) → Bool
  committed dfid [] = false
  committed dfid (entry ∷ entries) = entry.dfid == dfid || committed dfid entries

  unfoldable pub append :
      List (LedgerEntry F) → ProofCarryingIntent F → String → List (LedgerEntry F)
  append entries pci agent_id =
      if committed pci.dfid entries then entries else entries ++ entry_of pci agent_id ∷ []

  unfoldable pub append_all :
      List (LedgerEntry F) → List (ProofCarryingIntent F × String) → List (LedgerEntry F)
  append_all entries [] = entries
  append_all entries ((pci, agent_id) ∷ rest) = append_all (append entries pci agent_id) rest
