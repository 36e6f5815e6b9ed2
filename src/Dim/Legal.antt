-- ===== src/Dim/Legal.antt =====
-- The legal decision state: what `validate_proposal` of src/dir_core/dim.py accepts.
use decision_intelligence_ru.Prelude.{
  All, Bool-cases, Has, Has-mem, List, Option, String, [], arith, eq_iff, false, inl, inr, mem-Has,
  none, refl, some, true, ℤ, ◌↔◌, ◌∷◌, ◌≡◌, ◌≢◌, ◌≤ℤ◌, ◌⊎◌,
}
use decision_intelligence_ru.Python.{>>=-eq-ok, Fields, Prims, Value, is_null, ok, to_float}
use decision_intelligence_ru.Models.{PolicyProposal, Pydantic, RuntimeContractProjection}
use decision_intelligence_ru.Invariants.Legal.{AllHold, evaluate_invariants-eq-nil_iff}
use decision_intelligence_ru.Governor.{IntentRetryGovernor}
use decision_intelligence_ru.Dim.{
  Contract, Request, Validator, check_agent, check_confidence, check_custom, check_invariants,
  check_schema, check_ttl_window, comparable, contract_payload, deploy, exhausted, given,
  min_confidence, resolve_projection, resolve_valid_until, risk_score,
}

-- The agent is listed, where there is a list.
abbrev pub AmongAllowed : String → Option (List String) → Type 0
AmongAllowed agent none = Unit
AmongAllowed agent (some agents) = Has agent agents

module _ {F : Type 0} ⦃p : Prims F⦄ ⦃y : Pydantic F⦄ where
  -- The threshold is absent, or a number that the confidence is not below.
  pub record Confident (proposal : PolicyProposal F) (threshold : Value F) : Type 0 where
    pub enough :
        (is_null threshold ≡ true)
        ⊎ ((t : F) × (to_float threshold ≡ ok t) × (p.lt proposal.confidence t ≡ false))

  -- The contract resolves to a projection whose threshold and invariants the proposal meets.
  pub record Authorised (r : Request F) (context : Fields F) (contract : Contract F) : Type 0 where
    pub projection : RuntimeContractProjection F
    pub resolved : resolve_projection contract r.now ≡ ok projection
    pub confident : Confident r.proposal (min_confidence contract projection)
    pub invariants : AllHold r.proposal context projection.invariants

  -- A high risk score only matters to a deployment, where it must be a number of at most 0.8.
  pub record LowRisk (proposal : PolicyProposal F) (context : Fields F) : Type 0 where
    pub score : Value F
    pub read : risk_score context ≡ ok score
    pub tolerable :
        (proposal.policy_kind ≢ deploy)
        ⊎ ((x : F) × (comparable score ≡ ok x) × (p.lt (p.dec 8 1) x ≡ false))

  pub record LegalDecision (r : Request F) (context : Fields F)
      (governor : Option IntentRetryGovernor) : Type 0 where
    pub retries_left : exhausted governor r.proposal.dfid ≡ false
    pub kind : r.proposal.policy_kind ≢ ""
    pub agent : r.proposal.agent_id ≢ ""
    pub until : Option ℤ
    pub window : resolve_valid_until r.proposal ≡ ok until
    pub in_time : (t : ℤ) → until ≡ some t → r.now ≤ℤ t
    pub allowed : AmongAllowed r.proposal.agent_id r.allowed_agents
    pub authorised : (c : Contract F) → given r.contract ≡ some c → Authorised r context c
    pub low_risk : LowRisk r.proposal context
    pub validated :
        All
          (λ validator. validator r.proposal context (contract_payload r.contract) ≡ none)
          r.custom_validators

  -- Each gate finds nothing exactly when its demand is met.
  pub schema_iff :
      (proposal : PolicyProposal F)
      → (check_schema proposal ≡ none) ↔ ((proposal.policy_kind ≢ "") × (proposal.agent_id ≢ ""))
  unfolding check_schema
  schema_iff proposal = ground (arith, eq_iff proposal.policy_kind "", eq_iff proposal.agent_id "")

  pub agent_iff :
      (proposal : PolicyProposal F) (allowed : Option (List String))
      → (check_agent proposal allowed ≡ none) ↔ AmongAllowed proposal.agent_id allowed
  unfolding check_agent
  agent_iff proposal none = (λ h. tt, λ h. refl)
  agent_iff proposal (some agents) = (
    λ h. mem-Has proposal.agent_id agents (ground arith),
    λ h. ground (arith, Has-mem proposal.agent_id agents h),
  )

  pub custom_iff :
      (vs : List (Validator F)) (proposal : PolicyProposal F) (context payload : Fields F)
      → (check_custom vs proposal context payload ≡ none)
        ↔ All (λ validator. validator proposal context payload ≡ none) vs
  unfolding check_custom
  custom_iff [] proposal context payload = (λ h. tt, λ h. refl)
  custom_iff (v ∷ vs) proposal context payload =
      let ih = custom_iff vs proposal context payload in
      (λ h. (ground arith, ih.0 (ground arith)), λ h. ground (arith, ih.1 h.1))

  pub ttl_sound :
      (proposal : PolicyProposal F) (now : ℤ)
      → check_ttl_window proposal now ≡ ok none
      → (until : Option ℤ) × (resolve_valid_until proposal ≡ ok until)
        × ((t : ℤ) → until ≡ some t → now ≤ℤ t)
  unfolding check_ttl_window
  ttl_sound proposal now h =
      let (until, found, ended) = >>=-eq-ok (resolve_valid_until proposal) _ h in
      (until, found, λ t e. ground arith)

  pub ttl_complete :
      (proposal : PolicyProposal F) (now : ℤ) (until : Option ℤ)
      → resolve_valid_until proposal ≡ ok until
      → ((t : ℤ) → until ≡ some t → now ≤ℤ t)
      → check_ttl_window proposal now ≡ ok none
  unfolding check_ttl_window
  ttl_complete proposal now none found h = rw found refl
  ttl_complete proposal now (some t) found h = rw found (ground (arith, h t refl))

  pub confidence_sound :
      (proposal : PolicyProposal F) (threshold : Value F)
      → check_confidence proposal threshold ≡ ok none
      → Confident proposal threshold
  unfolding check_confidence
  confidence_sound proposal threshold h = elim (Bool-cases (is_null threshold)) [
    | inl n ↦ record { enough = inl n }
    | inr n ↦
        let (t, e, q) = >>=-eq-ok (to_float threshold) _ (rw n at h) in
        record { enough = inr (t, e, ground arith) }
  ]

  pub confidence_complete :
      (proposal : PolicyProposal F) (threshold : Value F)
      → Confident proposal threshold
      → check_confidence proposal threshold ≡ ok none
  unfolding check_confidence
  confidence_complete proposal threshold h = elim h.enough [
    | inl n ↦ rw n refl
    | inr (t, e, q) ↦ elim (Bool-cases (is_null threshold)) [
      | inl n ↦ rw n refl
      | inr n ↦ rw (n, e, q) refl
    ]
  ]

  pub invariants_iff :
      (proposal : PolicyProposal F) (projection : RuntimeContractProjection F) (context : Fields F)
      → (check_invariants proposal projection context ≡ none)
        ↔ AllHold proposal context projection.invariants
  unfolding check_invariants
  invariants_iff proposal projection context =
      let iff = evaluate_invariants-eq-nil_iff proposal projection context in
      (λ h. iff.0 (ground arith), λ h. rw (iff.1 h) refl)
