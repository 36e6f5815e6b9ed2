-- ===== src/Pci/Binding.antt =====
-- What an accepted proof-carrying intent is bound to.
use Prim.Native.String.{count}
use text.Mathlib.TextLemmas.{append_inj}
use decision_intelligence_ru.Prelude.{
  Bool-cases, String, arith, eq_iff, false, false≢true, inl, inr, refl, sym, true, ◌==◌, ◌∙◌, ◌≡◌,
  ◌≢◌, ◌⊎◌,
}
use decision_intelligence_ru.Python.{Fields}
use decision_intelligence_ru.Ledger.{ProofCarryingIntent}
use decision_intelligence_ru.Pci.{compute_evidence_hash, evidence_text, verify}

parts_eq :
    (d e c c' k k' p q : String)
    → count d ≡ count e
    → count c ≡ count c'
    → count k ≡ count k'
    → evidence_text d c k p ≡ evidence_text e c' k' q
    → (d ≡ e) × (c ≡ c') × (k ≡ k') × (p ≡ q)
unfolding evidence_text
parts_eq d e c c' k k' p q ld lc lk h =
    let (hd, h1) = append_inj h ld in
    let (hc, h2) = append_inj h1 lc in let (hk, hp) = append_inj h2 lk in (hd, hc, hk, hp)

module _ {F : Type 0} where
  verify-hash :
      (digest : String → String) (pci : ProofCarryingIntent F) (context contract : String)
      (params : Fields F → String)
      → verify digest pci context contract params ≡ (true, "OK")
      → compute_evidence_hash digest pci.dfid context contract (params pci.intent_payload)
        ≡ pci.evidence_hash
  unfolding verify
  verify-hash digest pci context contract params h = ground (
    arith,
    eq_iff (compute_evidence_hash digest pci.dfid context contract (params pci.intent_payload))
        pci.evidence_hash,
  )

  -- Two accepted intents that claim one evidence hash agree on the flow, the context hash, the
  -- contract hash and the proposal, where the flow ids, the context hashes and the contract hashes
  -- have equal lengths, as UUIDs and hex digests have; or else their hashed texts are a collision of
  -- the digest.
  pub verify-binds :
      (digest : String → String) (a b : ProofCarryingIntent F)
      (context contract context' contract' : String) (params : Fields F → String)
      → count a.dfid ≡ count b.dfid
      → count context ≡ count context'
      → count contract ≡ count contract'
      → verify digest a context contract params ≡ (true, "OK")
      → verify digest b context' contract' params ≡ (true, "OK")
      → a.evidence_hash ≡ b.evidence_hash
      → ((a.dfid ≡ b.dfid)
          × (context ≡ context')
          × (contract ≡ contract')
          × (params a.intent_payload ≡ params b.intent_payload))
        ⊎ ((evidence_text a.dfid context contract (params a.intent_payload)
              ≢ evidence_text b.dfid context' contract' (params b.intent_payload))
            × (digest (evidence_text a.dfid context contract (params a.intent_payload))
                ≡ digest (evidence_text b.dfid context' contract' (params b.intent_payload))))
  verify-binds digest a b context contract context' contract' params ld lc lk ha hb e =
      let same =
        verify-hash digest a context contract params ha
        ∙ e
        ∙ sym (verify-hash digest b context' contract' params hb) in
      elim (Bool-cases (
        evidence_text a.dfid context contract (params a.intent_payload)
        == evidence_text b.dfid context' contract' (params b.intent_payload))) [
          | inl q ↦ inl (
              parts_eq a.dfid b.dfid context context' contract contract' (params a.intent_payload)
                (params b.intent_payload) ld lc lk ((eq_iff _ _).0 q))
          | inr q ↦
              inr
                ((λ r. false≢true (sym q ∙ (eq_iff _ _).1 r)), unfold compute_evidence_hash in same)
        ]

  own_hash :
      (digest : String → String) (pci : ProofCarryingIntent F) (context contract : String)
      (params : Fields F → String)
      → pci.evidence_hash
        ≡ compute_evidence_hash digest pci.dfid context contract (params pci.intent_payload)
      → verify digest pci context contract params ≡ (true, "OK")
  unfolding verify
  own_hash digest pci context contract params h = ground (
    arith,
    eq_iff (compute_evidence_hash digest pci.dfid context contract (params pci.intent_payload))
        pci.evidence_hash,
  )

  verify-cases :
      (digest : String → String) (pci : ProofCarryingIntent F) (context contract : String)
      (params : Fields F → String)
      → (verify digest pci context contract params ≡ (false, "Evidence Invalid"))
        ⊎ (verify digest pci context contract params ≡ (true, "OK"))
  unfolding verify
  verify-cases digest pci context contract params =
      elim (Bool-cases (
        compute_evidence_hash digest pci.dfid context contract (params pci.intent_payload)
        == pci.evidence_hash)) [ inl e ↦ inr (rw e refl) | inr e ↦ inl (rw e refl) ]

  -- An intent sealed with the hash of its parts is accepted against them. With another payload, or
  -- against another context hash or contract hash of the same length, it is refused as invalid
  -- evidence, unless nothing that is hashed has changed or the two hashed texts are a collision of the
  -- digest.
  pub verify-sealed :
      (digest : String → String) (pci : ProofCarryingIntent F) (payload : Fields F)
      (context contract context' contract' : String) (params : Fields F → String)
      → count context ≡ count context'
      → count contract ≡ count contract'
      → pci.evidence_hash
        ≡ compute_evidence_hash digest pci.dfid context contract (params pci.intent_payload)
      → (verify digest pci context contract params ≡ (true, "OK"))
        × ((verify digest (record pci { intent_payload = payload }) context' contract' params
              ≡ (false, "Evidence Invalid"))
            ⊎ (((context ≡ context')
                  × (contract ≡ contract')
                  × (params pci.intent_payload ≡ params payload))
                ⊎ ((evidence_text pci.dfid context contract (params pci.intent_payload)
                      ≢ evidence_text pci.dfid context' contract' (params payload))
                    × (digest (evidence_text pci.dfid context contract (params pci.intent_payload))
                        ≡ digest (evidence_text pci.dfid context' contract' (params payload))))))
  verify-sealed digest pci payload context contract context' contract' params lc lk h =
      let changed = record pci { intent_payload = payload } in
      (
        own_hash digest pci context contract params h,
        elim (verify-cases digest changed context' contract' params) [
          | inl refused ↦ inl refused
          | inr passed ↦
              elim (verify-binds digest pci changed context contract context' contract' params refl
                lc lk (own_hash digest pci context contract params h) passed refl) [
                  | inl (flow, c, k, q) ↦ inr (inl (c, k, q))
                  | inr collision ↦ inr (inr collision)
                ]
        ],
      )
