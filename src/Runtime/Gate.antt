-- ===== src/Runtime/Gate.antt =====
-- What an answer of `DecisionRuntime.evaluate_proposal` says of the agent and of the DIM's verdict.
use decision_intelligence_ru.Dim.Accept.{accept_sound}
use decision_intelligence_ru.Prelude.{
  Option, Option-cases, String, arith, eq_iff, inl, inr, none, refl, some, ◌∙◌, ◌≡◌, ◌≢◌,
}
use decision_intelligence_ru.Python.{Exc, Fields, Prims, Res-cases, ok, raise}
use decision_intelligence_ru.Models.{Pydantic, Reason, ValidationVerdict, accept}
use decision_intelligence_ru.Registry.{get_agent_status}
use decision_intelligence_ru.Governor.{IntentRetryGovernor}
use decision_intelligence_ru.Dim.{Contract, Outcome, validate_proposal}
use decision_intelligence_ru.Dim.Legal.{LegalDecision}
use decision_intelligence_ru.Runtime.{
  Call, DecisionRuntime, audit_row, evaluate_open, evaluate_proposal, gate, gate_status, prepare,
  record_verdict, request_of, with_session,
}

-- The registry does not hold the agent back: it has no record, or its status is none of the four
-- that stop a decision.
abbrev pub IsServing : Option (String × Option String) → Type 0
IsServing none = Unit
IsServing (some (status, why)) =
    (status ≢ "SUSPENDED")
    × (status ≢ "RETIRED")
    × (status ≢ "DEGRADED")
    × (status ≢ "ESCALATION_ONLY")

gate_sound : (o : Option (String × Option String)) → gate o ≡ none → IsServing o
unfolding gate gate_status
gate_sound none h = tt
gate_sound (some (status, why)) h = ground (
  arith,
  eq_iff status "SUSPENDED",
  eq_iff status "RETIRED",
  eq_iff status "DEGRADED",
  eq_iff status "ESCALATION_ONLY",
)

gate-not_accept :
    (o : Option (String × Option String)) (reason : Reason) → gate o ≢ some (accept, reason)
unfolding gate gate_status
gate-not_accept none reason h = cc
gate-not_accept (some (status, why)) reason h = ground arith

raise≢ok : {A : Type 0} (x : Exc) (a : A) → raise x ≢ ok a
raise≢ok x a h = cc

-- What the runtime's ACCEPT rests on.
pub record Accepted {F : Type 0} ⦃p : Prims F⦄ ⦃y : Pydantic F⦄ (rt : DecisionRuntime F)
    (c : Call F) (governor : Option IntentRetryGovernor) : Type 0 where
  pub serving : IsServing (get_agent_status rt.registry c.proposal.agent_id)
  pub context : Fields F
  pub contract : Option (Contract F)
  pub prepared : prepare (with_session rt c) c ≡ ok (context, contract)
  pub legal : LegalDecision (request_of c contract) context governor

module _ {F : Type 0} ⦃p : Prims F⦄ ⦃y : Pydantic F⦄ where
  record_verdict-result :
      (rt : DecisionRuntime F) (c : Call F) (o : Outcome F) (v : ValidationVerdict × Reason)
      → (record_verdict rt c o).result ≡ ok v
      → o.result ≡ ok v
  unfolding record_verdict
  record_verdict-result rt c o v h = elim (Res-cases o.result) [
    | inr (x, e) ↦ absurd (raise≢ok x v (rw (e, record_verdict) at h))
    | inl ((verdict, reason), e) ↦ elim (Res-cases (audit_row c o.context verdict reason)) [
      | inr (x, f) ↦ absurd (raise≢ok x v (rw (e, f, record_verdict) at h))
      | inl (none, f) ↦ e ∙ (rw (e, f, record_verdict) at h)
      | inl (some row, f) ↦ e ∙ (rw (e, f, record_verdict) at h)
    ]
  ]

  -- Where the runtime answers ACCEPT, the registry does not hold the agent back (no record, or a
  -- status other than SUSPENDED, RETIRED, DEGRADED and ESCALATION_ONLY), and the proposal is a legal
  -- decision in the context and under the contract that the runtime prepared for the DIM, the web
  -- context being in the session.
  pub accept-evaluate_proposal :
      (rt : DecisionRuntime F) (c : Call F) (governor : Option IntentRetryGovernor)
      (reason : Reason)
      → (evaluate_proposal rt c governor).result ≡ ok (accept, reason)
      → Accepted rt c governor
  unfolding evaluate_proposal evaluate_open
  accept-evaluate_proposal rt c governor reason h =
      let status = get_agent_status rt.registry c.proposal.agent_id in
      elim (Option-cases (gate status)) [
        | inr (verdict, e) ↦
            absurd (gate-not_accept status reason (let q = rw (e, evaluate_proposal) at h in cc))
        | inl e ↦ elim (Res-cases (prepare (with_session rt c) c)) [
          | inr (x, f) ↦
              absurd
                (raise≢ok x (accept, reason) (rw (e, f, evaluate_proposal, evaluate_open) at h))
          | inl ((context, contract), f) ↦ record {
            serving = gate_sound status e;
            context = context;
            contract = contract;
            prepared = f;
            legal = accept_sound (request_of c contract) context governor reason (
                record_verdict-result (with_session rt c) c
                  (validate_proposal (request_of c contract) context governor) (accept, reason)
                  (rw (e, f, evaluate_proposal, evaluate_open) at h));
          }
        ]
      ]

  -- An agent whose registry status is SUSPENDED, RETIRED, DEGRADED or ESCALATION_ONLY is never
  -- accepted, whatever it proposes: the runtime answers with a REJECT or an ESCALATE, and neither its
  -- stores nor the governor change.
  pub blocked-evaluate_proposal :
      (rt : DecisionRuntime F) (c : Call F) (governor : Option IntentRetryGovernor)
      → ¬ IsServing (get_agent_status rt.registry c.proposal.agent_id)
      → (verdict : ValidationVerdict) × (reason : Reason) × (verdict ≢ accept)
        × (evaluate_proposal rt c governor
            ≡ record { result = ok (verdict, reason); runtime = rt; governor = governor })
  unfolding evaluate_proposal
  blocked-evaluate_proposal rt c governor n =
      let status = get_agent_status rt.registry c.proposal.agent_id in
      elim (Option-cases (gate status)) [
        | inl e ↦ absurd (n (gate_sound status e))
        | inr ((verdict, reason), e) ↦ (
          verdict,
          reason,
          (λ a. gate-not_accept status reason (rw a at e)),
          rw (e, evaluate_proposal) refl,
        )
      ]
