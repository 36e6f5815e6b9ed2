-- ===== src/Dim/Accept.antt =====
-- `validate_proposal` of src/dir_core/dim.py accepts exactly the legal decisions.
use decision_intelligence_ru.Prelude.{
  Bool-cases, Option, String, arith, eq_iff, inl, inr, none, refl, some, subst, ◌==◌, ◌↔◌, ◌≡◌,
}
use decision_intelligence_ru.Python.{>>=-eq-ok, >>?-eq-none, Fields, Prims, Res, ok, raise}
use decision_intelligence_ru.Models.{
  PolicyProposal, Pydantic, Reason, accept, code, validation_passed,
}
use decision_intelligence_ru.Governor.{IntentRetryGovernor}
use decision_intelligence_ru.Dim.{
  Contract, Rejection, Request, check_agent, check_confidence, check_contract, check_custom,
  check_gates, check_given, check_risk, check_schema, check_ttl_window, comparable, conclude,
  contract_payload, deploy, exhausted, given, min_confidence, plain, resolve_projection, risk_score,
  validate_proposal, violations,
}
use decision_intelligence_ru.Dim.Legal.{
  Authorised, LegalDecision, LowRisk, agent_iff, confidence_complete, confidence_sound, custom_iff,
  invariants_iff, schema_iff, ttl_complete, ttl_sound,
}

module _ {F : Type 0} ⦃p : Prims F⦄ ⦃y : Pydantic F⦄ where
  risk_sound :
      (proposal : PolicyProposal F) (context : Fields F)
      → check_risk proposal context ≡ ok none
      → LowRisk proposal context
  unfolding check_risk
  risk_sound proposal context h =
      let (score, read, q) = >>=-eq-ok (risk_score context) _ h in
      elim (Bool-cases (proposal.policy_kind == deploy)) [
        | inl d ↦
            let (x, e, low) = >>=-eq-ok (comparable score) _ (rw d at q) in
            record { score = score; read = read; tolerable = inr (x, e, ground arith) }
        | inr d ↦ record {
          score = score;
          read = read;
          tolerable = inl (ground (arith, eq_iff proposal.policy_kind deploy));
        }
      ]

  risk_complete :
      (proposal : PolicyProposal F) (context : Fields F)
      → LowRisk proposal context
      → check_risk proposal context ≡ ok none
  unfolding check_risk
  risk_complete proposal context h = rw h.read (elim (Bool-cases (proposal.policy_kind == deploy)) [
    | inl d ↦ elim h.tolerable [
      | inl n ↦ absurd (n ((eq_iff proposal.policy_kind deploy).0 d))
      | inr (x, e, low) ↦ rw (d, e, low) refl
    ]
    | inr d ↦ rw d refl
  ])

  given_sound :
      (r : Request F) (context : Fields F) (o : Option (Contract F))
      → check_given r context o ≡ ok none
      → (c : Contract F) → o ≡ some c
      → Authorised r context c
  unfolding check_given
  given_sound r context none h c e = cc
  given_sound r context (some c') h c e =
      let (q, resolved, rest) = >>=-eq-ok (resolve_projection c' r.now) _ h in
      let (confident, legal) =
        >>?-eq-none (check_confidence r.proposal (min_confidence c' q)) _ rest in
      subst (Authorised r context) (ground arith) (record {
        projection = q;
        resolved = resolved;
        confident = confidence_sound r.proposal _ confident;
        invariants = (invariants_iff r.proposal q context).0 (ground arith);
      })

  given_complete :
      (r : Request F) (context : Fields F) (o : Option (Contract F))
      → ((c : Contract F) → o ≡ some c → Authorised r context c)
      → check_given r context o ≡ ok none
  unfolding check_given
  given_complete r context none h = refl
  given_complete r context (some c) h =
      let a = h c refl in
      rw
        (
          a.resolved,
          confidence_complete r.proposal _ a.confident,
          (invariants_iff r.proposal a.projection context).1 a.invariants,
        )
        refl

  conclude_accept :
      (m : Res (Option Rejection)) (dfid : String) (context : Fields F)
      (g : Option IntentRetryGovernor) (reason : Reason)
      → (conclude m dfid context g).result ≡ ok (accept, reason)
      → m ≡ ok none
  unfolding conclude
  conclude_accept (raise e) dfid context g reason h = cc
  conclude_accept (ok none) dfid context g reason h = refl
  conclude_accept (ok (some (plain x))) dfid context g reason h = ground arith
  conclude_accept (ok (some (violations f fs))) dfid context g reason h = ground arith

  module _ (r : Request F) (context : Fields F) (governor : Option IntentRetryGovernor) where
    pub accept_sound :
        (reason : Reason)
        → (validate_proposal r context governor).result ≡ ok (accept, reason)
        → LegalDecision r context governor
    unfolding validate_proposal check_gates check_contract
    accept_sound reason h = elim (Bool-cases (exhausted governor r.proposal.dfid)) [
      | inl e ↦ absurd (ground arith)
      | inr e ↦
          let gates =
            conclude_accept (check_gates r context) r.proposal.dfid context governor reason
              (rw e at h) in
          let (schema, gates1) = >>?-eq-none (ok (check_schema r.proposal)) _ gates in
          let (ttl, gates2) = >>?-eq-none (check_ttl_window r.proposal r.now) _ gates1 in
          let (agent, gates3) =
            >>?-eq-none (ok (check_agent r.proposal r.allowed_agents)) _ gates2 in
          let (contract, gates4) =
            >>?-eq-none (check_given r context (given r.contract)) _ gates3 in
          let (risk, custom) =
            >>?-eq-none (check_risk r.proposal context)
              (ok
                (check_custom r.custom_validators r.proposal context (contract_payload r.contract)))
              gates4 in
          let (until, window, in_time) = ttl_sound r.proposal r.now ttl in
          let (kind, agent_id) = (schema_iff r.proposal).0 (ground arith) in
          record {
            retries_left = e;
            kind = kind;
            agent = agent_id;
            until = until;
            window = window;
            in_time = in_time;
            allowed = (agent_iff r.proposal r.allowed_agents).0 (ground arith);
            authorised = given_sound r context (given r.contract) contract;
            low_risk = risk_sound r.proposal context risk;
            validated = (custom_iff r.custom_validators r.proposal context _).0 (ground arith);
          }
    ]

    accept_complete :
        LegalDecision r context governor
        → (validate_proposal r context governor).result ≡ ok (accept, code validation_passed)
    unfolding validate_proposal check_gates check_contract conclude
    accept_complete l =
        rw
          (
            l.retries_left,
            (schema_iff r.proposal).1 (l.kind, l.agent),
            ttl_complete r.proposal r.now l.until l.window l.in_time,
            (agent_iff r.proposal r.allowed_agents).1 l.allowed,
            given_complete r context (given r.contract) l.authorised,
            risk_complete r.proposal context l.low_risk,
            (custom_iff r.custom_validators r.proposal context _).1 l.validated,
          )
          refl

    -- A proposal is accepted exactly when it is a legal decision: the flow has retries left, kind
    -- and agent are named, the validity window is open, the agent is allowed, the contract (where
    -- one is given) resolves and its confidence threshold and applicable invariants are met, a
    -- deployment's risk is at most 0.8, and no custom validator objects.
    pub accept_iff :
        ((validate_proposal r context governor).result ≡ ok (accept, code validation_passed))
        ↔ LegalDecision r context governor
    accept_iff = (accept_sound (code validation_passed), accept_complete)
