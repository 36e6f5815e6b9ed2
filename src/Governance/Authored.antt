-- ===== src/Governance/Authored.antt =====
-- When a contract passes the authoring rules of tools/contract/governance/validation.py.
use decision_intelligence_ru.Prelude.{
  All, Bool, Bool-cases, Has, Has-mem, List, String, [], ap, arith, false, false≢true, inl, inr,
  mem, mem-Has, refl, sym, true, ◌++◌, ◌↔◌, ◌∙◌, ◌∷◌, ◌≡◌,
}
use decision_intelligence_ru.Python.{>>=-eq-ok, Exc, Fields, Prims, ok, un_ok}
use decision_intelligence_ru.Dict.{Dict}
use decision_intelligence_ru.Models.{Pydantic}
use decision_intelligence_ru.Contract.{AggregatePolicy, CanonicalContract, numeric_limits}
use decision_intelligence_ru.Contract.Bootstrap.{error_if}
use decision_intelligence_ru.Contract.Errors.{append_nils, both_nil, error_if-nil, unset_text}
use decision_intelligence_ru.Contract.InvariantIr.{validate_contract_invariant_ir}
use decision_intelligence_ru.Python.Text.{◌+s◌}
use decision_intelligence_ru.Python.Text.{contains}
use text.Mathlib.Text.{starts_with}
use decision_intelligence_ru.Governance.NamedAfter.{
  NamedAfter, NamedAfter-duplicates_lower, duplicates_lower-NamedAfter,
}
use decision_intelligence_ru.Governance.Authoring.{
  duplicates_lower, aggregate_duplicates_limit_key, all_policy_errors, duplicate_errors,
  identity_errors, leaks_confidence, names_invariant, placeholder_agent_ids, placeholder_owners,
  policy_errors, validate_authoring_contract,
}

nil-error_if : (failed : Bool) (message : String) → failed ≡ false → error_if failed message ≡ []
unfolding error_if
nil-error_if failed message h = rw h refl

unlisted : (a : String) (xs : List String) → (Has a xs → ⊥) → mem a xs ≡ false
unlisted a xs h = elim (Bool-cases (mem a xs)) [ inl e ↦ absurd (h (mem-Has a xs e)) | inr e ↦ e ]

absent : (a : String) (xs : List String) → mem a xs ≡ false → Has a xs → ⊥
absent a xs h m = false≢true (sym h ∙ Has-mem a xs m)

names_false :
    (id : String)
    → names_invariant id ≡ false
    → (starts_with id "INV-" ≡ false) × (contains "INVARIANT" id ≡ false)
unfolding names_invariant
names_false id h = (ground arith, ground arith)

false_names :
    (id : String)
    → starts_with id "INV-" ≡ false
    → contains "INVARIANT" id ≡ false
    → names_invariant id ≡ false
unfolding names_invariant
false_names id h k = rw (h, k) refl

module _ {F : Type 0} ⦃p : Prims F⦄ where
  -- A limit that the policy's threshold meets is not one that it is named after.
  abbrev pub IsOwn : AggregatePolicy F → String × F → Type 0
  IsOwn policy (key, val) =
      (p.lt (p.dec 1 9) (p.abs (p.sub policy.threshold val)) ≡ false)
      → NamedAfter (p.lower key) (p.lower policy.metric) (p.lower policy.policy_id)
      → ⊥

  own_false :
      (policy : AggregatePolicy F) (key : String)
      → aggregate_duplicates_limit_key p.lower key policy.metric policy.policy_id ≡ false
      → NamedAfter (p.lower key) (p.lower policy.metric) (p.lower policy.policy_id)
      → ⊥
  unfolding aggregate_duplicates_limit_key
  own_false policy key h n = false≢true (sym h ∙ NamedAfter-duplicates_lower _ _ _ n)

  false_own :
      (policy : AggregatePolicy F) (key : String)
      → (NamedAfter (p.lower key) (p.lower policy.metric) (p.lower policy.policy_id) → ⊥)
      → aggregate_duplicates_limit_key p.lower key policy.metric policy.policy_id ≡ false
  unfolding aggregate_duplicates_limit_key
  false_own policy key n =
      elim (Bool-cases
        (duplicates_lower (p.lower key) (p.lower policy.metric) (p.lower policy.policy_id))) [
          | inl e ↦ absurd (n (duplicates_lower-NamedAfter _ _ _ e))
          | inr e ↦ e
        ]

  unleaked :
      (below : F) (policy : AggregatePolicy F)
      → leaks_confidence below policy ≡ false
      → contains "confidence" (p.lower policy.metric) ≡ true
      → p.lt (p.abs (p.sub policy.threshold below)) (p.dec 1 9) ≡ false
  unfolding leaks_confidence
  unleaked below policy h k = ground arith

  no_leak :
      (below : F) (policy : AggregatePolicy F)
      → (contains "confidence" (p.lower policy.metric) ≡ true
          → p.lt (p.abs (p.sub policy.threshold below)) (p.dec 1 9) ≡ false)
      → leaks_confidence below policy ≡ false
  unfolding leaks_confidence
  no_leak below policy h = elim (Bool-cases (contains "confidence" (p.lower policy.metric))) [
    | inl e ↦ rw (e, h e) refl
    | inr e ↦ rw e refl
  ]

  -- An aggregate policy that states none of what belongs elsewhere: no invariant of a transaction, no
  -- threshold of escalation, no limit of a single transaction.
  pub data IsAggregate (limits : Dict F) (below : F) (policy : AggregatePolicy F) : Type 0 where
    aggregate :
        starts_with (p.upper policy.policy_id) "INV-" ≡ false
        → contains "INVARIANT" (p.upper policy.policy_id) ≡ false
        → (contains "confidence" (p.lower policy.metric) ≡ true
            → p.lt (p.abs (p.sub policy.threshold below)) (p.dec 1 9) ≡ false)
        → All (IsOwn policy) limits
        → IsAggregate limits below policy

  -- The agent, the contract and the owner have names of their own.
  pub data IsIdentified (c : CanonicalContract F) : Type 0 where
    identified :
        (Has (p.strip c.subject.agent_id) placeholder_agent_ids → ⊥)
        → (Has (p.strip c.metadata.contract_id) placeholder_agent_ids → ⊥)
        → (Has (p.strip c.metadata.owner) placeholder_owners → ⊥)
        → IsIdentified c

  duplicates_sound :
      (policy : AggregatePolicy F) (limits : Dict F)
      → duplicate_errors policy limits ≡ []
      → All (IsOwn policy) limits
  unfolding duplicate_errors
  duplicates_sound policy [] h = tt
  duplicates_sound policy ((key, val) ∷ limits) h =
      elim (Bool-cases (p.lt (p.dec 1 9) (p.abs (p.sub policy.threshold val)))) [
        | inl e ↦ ((λ f. ground arith), duplicates_sound policy limits (ground arith))
        | inr e ↦
            let (a, b) =
              both_nil
                (error_if
                  (aggregate_duplicates_limit_key p.lower key policy.metric policy.policy_id)
                  ("AGGREGATE_DUP_LIMIT: " +s policy.policy_id +s " duplicates authority.limits."
                    +s key +s " (single-transaction limit)"))
                (duplicate_errors policy limits) (ground arith) in
            ((λ f. own_false policy key (error_if-nil _ _ a)), duplicates_sound policy limits b)
      ]

  duplicates_complete :
      (policy : AggregatePolicy F) (limits : Dict F)
      → All (IsOwn policy) limits
      → duplicate_errors policy limits ≡ []
  unfolding duplicate_errors
  duplicates_complete policy [] h = refl
  duplicates_complete policy ((key, val) ∷ limits) h =
      elim (Bool-cases (p.lt (p.dec 1 9) (p.abs (p.sub policy.threshold val)))) [
        | inl e ↦ rw e (duplicates_complete policy limits h.1)
        | inr e ↦ rw e (
            append_nils _ _ (nil-error_if _ _ (false_own policy key (h.0 e)))
              (duplicates_complete policy limits h.1))
      ]

  policies_sound :
      (limits : Dict F) (below : F) (policies : List (AggregatePolicy F))
      → all_policy_errors limits below policies ≡ []
      → All (IsAggregate limits below) policies
  unfolding all_policy_errors policy_errors
  policies_sound limits below [] h = tt
  policies_sound limits below (policy ∷ policies) h =
      let (own, rest) = both_nil _ (all_policy_errors limits below policies) h in
      let (named, others) = both_nil (error_if _ _) _ own in
      let (leaks, duplicates) = both_nil (error_if _ _) (duplicate_errors policy limits) others in
      (
        aggregate (names_false _ (error_if-nil _ _ named)).0
            (names_false _ (error_if-nil _ _ named)).1
            (unleaked below policy (error_if-nil _ _ leaks))
            (duplicates_sound policy limits duplicates),
        policies_sound limits below policies rest,
      )

  policies_complete :
      (limits : Dict F) (below : F) (policies : List (AggregatePolicy F))
      → All (IsAggregate limits below) policies
      → all_policy_errors limits below policies ≡ []
  unfolding all_policy_errors policy_errors
  policies_complete limits below [] h = refl
  policies_complete limits below (policy ∷ policies) (aggregate prefixed named leaks own, rest) =
      append_nils _ _
        (append_nils _ _ (nil-error_if _ _ (false_names _ prefixed named)) (
          append_nils _ _ (nil-error_if _ _ (no_leak below policy leaks))
            (duplicates_complete policy limits own)))
        (policies_complete limits below policies rest)

  identity_sound : (c : CanonicalContract F) → identity_errors c ≡ [] → IsIdentified c
  unfolding identity_errors
  identity_sound c h =
      let (ids, owner) = both_nil (error_if _ _) (error_if _ _) h in
      let bad_ids = error_if-nil _ _ ids in
      let bad_owner = error_if-nil _ _ owner in
      identified (absent (p.strip c.subject.agent_id) placeholder_agent_ids (ground arith))
        (absent (p.strip c.metadata.contract_id) placeholder_agent_ids (ground arith))
        (absent (p.strip c.metadata.owner) placeholder_owners (ground arith))

  identity_complete : (c : CanonicalContract F) → IsIdentified c → identity_errors c ≡ []
  unfolding identity_errors
  identity_complete c (identified agent contract owner) =
      let no_agent = unlisted (p.strip c.subject.agent_id) placeholder_agent_ids agent in
      let no_contract = unlisted (p.strip c.metadata.contract_id) placeholder_agent_ids contract in
      let no_owner = unlisted (p.strip c.metadata.owner) placeholder_owners owner in
      let named = unset_text (p.strip c.metadata.owner) (λ e. owner (inr (inl (sym e)))) in
      append_nils _ _ (nil-error_if _ _ (ground arith)) (nil-error_if _ _ (ground arith))

  -- The parts of a contract that passes the authoring rules.
  pub data IsAuthored ⦃y : Pydantic F⦄ (exc_text : Exc → String)
      (dump : CanonicalContract F → Fields F) (c : CanonicalContract F) : Type 0 where
    authored :
        IsIdentified c
        → All
            (IsAggregate (numeric_limits c.authority) c.responsibility.escalation.confidence_below)
            c.aggregate_policies
        → validate_contract_invariant_ir exc_text (dump c) ≡ ok []
        → IsAuthored exc_text dump c

  passed :
      ⦃y : Pydantic F⦄
      → (exc_text : Exc → String) (dump : CanonicalContract F → Fields F) (c : CanonicalContract F)
      → validate_authoring_contract exc_text dump c ≡ ok []
      → IsAuthored exc_text dump c
  unfolding validate_authoring_contract
  passed exc_text dump c h =
      let (found, e, q) =
        >>=-eq-ok (validate_contract_invariant_ir exc_text (dump c))
          (λ found. ok (
            identity_errors c
            ++ (all_policy_errors (numeric_limits c.authority)
                  c.responsibility.escalation.confidence_below c.aggregate_policies
                ++ found)))
          h in
      let (named, others) = both_nil (identity_errors c) _ (un_ok q) in
      let (policies, none_found) = both_nil (all_policy_errors _ _ _) found others in
      authored (identity_sound c named) (policies_sound _ _ _ policies) (e ∙ ap ok none_found)

  passes :
      ⦃y : Pydantic F⦄
      → (exc_text : Exc → String) (dump : CanonicalContract F → Fields F) (c : CanonicalContract F)
      → IsAuthored exc_text dump c
      → validate_authoring_contract exc_text dump c ≡ ok []
  unfolding validate_authoring_contract
  passes exc_text dump c (authored named policies ir) = rw ir (
      ap ok (
        append_nils _ _ (identity_complete c named)
          (append_nils _ [] (policies_complete _ _ _ policies) refl)))

  -- A contract passes the authoring rules exactly when the agent, the contract and the owner are no
  -- placeholders, no aggregate policy states an invariant by its name, repeats the escalation's
  -- confidence threshold, or repeats in its threshold a positive limit that it is named after, and the
  -- checks of its invariants find nothing in what it is dumped to.
  pub validate_authoring-IsAuthored :
      ⦃y : Pydantic F⦄
      → (exc_text : Exc → String) (dump : CanonicalContract F → Fields F) (c : CanonicalContract F)
      → (validate_authoring_contract exc_text dump c ≡ ok []) ↔ IsAuthored exc_text dump c
  validate_authoring-IsAuthored exc_text dump c = (passed exc_text dump c, passes exc_text dump c)
