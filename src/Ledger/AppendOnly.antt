-- ===== src/Ledger/AppendOnly.antt =====
-- What the decision ledger keeps.
use decision_intelligence_ru.Prelude.{
  Bool, Bool-cases, List, Option, Option-cases, String, [], arith, eq_iff, if◌then◌else◌, inl, inr,
  is_some, none, refl, some, ◌++◌, ◌==◌, ◌∙◌, ◌∷◌, ◌≡◌,
}
use decision_intelligence_ru.Ledger.{
  LedgerEntry, ProofCarryingIntent, append, append_all, committed, entry_of, get_by_dfid,
}

module _ {F : Type 0} where
  get_by_dfid-snoc :
      (d : String) (e : LedgerEntry F) (entries : List (LedgerEntry F))
      → get_by_dfid d (entries ++ e ∷ []) ≡ (
          if committed d entries
          then get_by_dfid d entries
          else if e.dfid == d
          then some e
          else none)
  unfolding get_by_dfid committed
  get_by_dfid-snoc d e [] = ground arith
  get_by_dfid-snoc d e (x ∷ entries) = ground (arith, get_by_dfid-snoc d e entries)

  committed-get_by_dfid :
      (d : String) (entries : List (LedgerEntry F))
      → committed d entries ≡ is_some (get_by_dfid d entries)
  unfolding get_by_dfid committed
  committed-get_by_dfid d [] = refl
  committed-get_by_dfid d (x ∷ entries) = ground (arith, committed-get_by_dfid d entries)

  -- what an append leaves of a flow: its entry where it has one, else the new one where it is its own
  abbrev pub settled : Option (LedgerEntry F) → Bool → LedgerEntry F → Option (LedgerEntry F)
  settled none own e = if own then some e else none
  settled (some old) own e = some old

  get_by_dfid-append :
      (d agent_id : String) (pci : ProofCarryingIntent F) (entries : List (LedgerEntry F))
      → get_by_dfid d (append entries pci agent_id)
        ≡ settled (get_by_dfid d entries) (pci.dfid == d) (entry_of pci agent_id)
  unfolding append entry_of
  get_by_dfid-append d agent_id pci entries = elim (Bool-cases (committed pci.dfid entries)) [
    | inl e ↦ rw e (elim (Option-cases (get_by_dfid d entries)) [
      | inr (old, f) ↦ rw f refl
      | inl f ↦ rw f (ground (arith, e, f, eq_iff pci.dfid d, committed-get_by_dfid d entries))
    ])
    | inr e ↦
        rw (e, get_by_dfid-snoc, committed-get_by_dfid)
          (elim (Option-cases (get_by_dfid d entries)) [
            | inr (old, f) ↦ rw f refl
            | inl f ↦ rw f refl
          ])
  ]

  abbrev if_none : Option (LedgerEntry F) → Option (LedgerEntry F) → Option (LedgerEntry F)
  if_none none o = o
  if_none (some e) o = some e

  -- the first of the intents of a flow
  unfoldable pub first_intent :
      String → List (ProofCarryingIntent F × String) → Option (LedgerEntry F)
  first_intent d [] = none
  first_intent d ((pci, agent_id) ∷ rest) =
      if pci.dfid == d then some (entry_of pci agent_id) else first_intent d rest

  settled-append_all :
      (d : String) (entries : List (LedgerEntry F))
      (intents : List (ProofCarryingIntent F × String))
      → get_by_dfid d (append_all entries intents)
        ≡ if_none (get_by_dfid d entries) (first_intent d intents)
  unfolding append_all first_intent
  settled-append_all d entries [] = elim (get_by_dfid d entries) as (λ o. o ≡ if_none o none) [
    | none ↦ refl
    | some e ↦ refl
  ]
  settled-append_all d entries ((pci, agent_id) ∷ rest) =
      settled-append_all d (append entries pci agent_id) rest
      ∙ rw get_by_dfid-append
          (elim (get_by_dfid d entries)
            as (λ o.
              if_none (settled o (pci.dfid == d) (entry_of pci agent_id)) (first_intent d rest)
              ≡ if_none o
                  (if pci.dfid == d then some (entry_of pci agent_id) else first_intent d rest)) [
                    | some e ↦ refl
                    | none ↦ ground arith
                  ])

  -- In a ledger that starts empty, a flow is bound by the first intent that was appended for it,
  -- whatever is appended later, and a flow for which none was appended has no entry.
  pub get_by_dfid-append_all :
      (d : String) (intents : List (ProofCarryingIntent F × String))
      → get_by_dfid d (append_all [] intents) ≡ first_intent d intents
  unfolding get_by_dfid
  get_by_dfid-append_all d intents = settled-append_all d [] intents
