-- ===== src/Dim/Effects.antt =====
-- What `validate_proposal` of src/dir_core/dim.py does to the governor, and when it gives up.
use decision_intelligence_ru.Prelude.{
  Option, String, arith, eq_refl, false, inl, inr, none, refl, some, true, ℕ, ◌+◌, ◌≡◌,
}
use decision_intelligence_ru.Python.{Fields, Prims, Res, Res-cases, ok, raise}
use decision_intelligence_ru.Models.{
  Pydantic, Reason, ValidationVerdict, accept, code, escalate, reasoning_exhaustion, reject,
}
use decision_intelligence_ru.Governor.{
  IntentRetryGovernor, get_count, record_rejection, should_abort,
}
use decision_intelligence_ru.Governor.Counting.{count-record_rejection, max-record_rejection}
use decision_intelligence_ru.Dim.{
  Rejection, Request, audit_failures, check_gates, conclude, exhausted, plain, record_on,
  validate_proposal, violations,
}

-- the rejections that an outcome adds to the flow's count
unfoldable pub charge : Res (ValidationVerdict × Reason) → ℕ
charge (ok (reject, reason)) = 1
charge (ok (accept, reason)) = 0
charge (ok (escalate, reason)) = 0
charge (raise e) = 0

module _ {F : Type 0} ⦃p : Prims F⦄ ⦃y : Pydantic F⦄ where
  module _ (r : Request F) (context : Fields F) (g : IntentRetryGovernor) where
    abbrev dfid : String
    dfid = r.proposal.dfid

    conclude_charges :
        (m : Res (Option Rejection))
        → (h : IntentRetryGovernor) × ((conclude m r.proposal.dfid context (some g)).governor
            ≡ some h)
          × (h.max_retries ≡ g.max_retries)
          × (get_count h.storage r.proposal.dfid
              ≡ get_count g.storage r.proposal.dfid
                + charge (conclude m r.proposal.dfid context (some g)).result)
    unfolding conclude charge record_on
    conclude_charges (raise e) = (g, refl, refl, omega arith)
    conclude_charges (ok none) = (g, refl, refl, omega arith)
    conclude_charges (ok (some (plain x))) = (
      (record_rejection g r.proposal.dfid).0,
      refl,
      max-record_rejection g r.proposal.dfid,
      rw count-record_rejection (rw eq_refl refl),
    )
    conclude_charges (ok (some (violations f fs))) =
        elim (Res-cases (audit_failures context f fs)) [
          | inl (a, e) ↦
              rw (e, conclude)
                (
                  (record_rejection g r.proposal.dfid).0,
                  refl,
                  max-record_rejection g r.proposal.dfid,
                  rw count-record_rejection (rw eq_refl refl),
                )
          | inr (x, e) ↦ rw (e, conclude) (g, refl, refl, omega arith)
        ]

    -- A flow whose rejections have used up the governor's budget is rejected as exhausted, whatever
    -- the proposal, the contract and the context are, and nothing is written: neither the context
    -- nor the governor.
    exhausted-validate_proposal :
        should_abort g r.proposal.dfid ≡ true
        → validate_proposal r context (some g) ≡ record {
          result = ok (reject, code reasoning_exhaustion);
          context = context;
          governor = some g;
        }
    unfolding validate_proposal exhausted
    exhausted-validate_proposal e = rw e refl

    -- A flow with budget left is charged exactly one rejection for a REJECT, and none for an ACCEPT
    -- or for an exception; the governor's limit stays.
    pub charge-validate_proposal :
        should_abort g r.proposal.dfid ≡ false
        → (h : IntentRetryGovernor) × ((validate_proposal r context (some g)).governor ≡ some h)
          × (h.max_retries ≡ g.max_retries)
          × (get_count h.storage r.proposal.dfid
              ≡ get_count g.storage r.proposal.dfid
                + charge (validate_proposal r context (some g)).result)
    unfolding validate_proposal exhausted
    charge-validate_proposal e = rw e (conclude_charges (check_gates r context))
