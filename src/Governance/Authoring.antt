-- ===== src/Governance/Authoring.antt =====
-- tools/contract/governance/validation.py: the blocking rules on an authored contract. What the code
-- gets of `model_dump(mode="json")` is the argument `dump`.
use decision_intelligence_ru.Prelude.{
  Bool, List, String, [], any, if◌then◌else◌, mem, not, true, ◌&&◌, ◌++◌, ◌==◌, ◌||◌, ◌∷◌,
}
use decision_intelligence_ru.Python.{Exc, Fields, Prims, Res, ok, ◌>>=◌}
use decision_intelligence_ru.Python.Text.{contains, remove_all, ◌+s◌}
use text.Mathlib.Text.{starts_with}
use decision_intelligence_ru.Dict.{Dict}
use decision_intelligence_ru.Models.{Pydantic}
use decision_intelligence_ru.Contract.{AggregatePolicy, CanonicalContract, numeric_limits}
use decision_intelligence_ru.Contract.Bootstrap.{error_if}
use decision_intelligence_ru.Contract.InvariantIr.{validate_contract_invariant_ir}

abbrev pub placeholder_agent_ids : List String
placeholder_agent_ids = "draft_agent" ∷ []

abbrev pub placeholder_owners : List String
placeholder_owners = "owner@example.com" ∷ "" ∷ []

-- the tokens that the loop at the end compares
abbrev pub limit_tokens : List String
limit_tokens =
    "transaction" ∷ "order" ∷ "premium" ∷ "refund" ∷ "discount" ∷ "drawdown" ∷ "confidence" ∷ []

-- `text.replace("_usd", "").replace("_pct", "")`
unfoldable pub stem : String → String
stem s = remove_all 3 "_pct" (remove_all 3 "_usd" s)

-- on the lower case of the key, the metric and the policy's id
unfoldable pub duplicates_lower : String → String → String → Bool
duplicates_lower key metric policy =
    if contains key metric || contains key policy
    then true
    else if not (stem key == "") && contains (stem key) (stem metric)
    then true
    else any (λ token. contains token key && contains token metric) limit_tokens

-- `lower` is `str.lower`
unfoldable pub aggregate_duplicates_limit_key : (String → String) → String → String → String → Bool
aggregate_duplicates_limit_key lower limit_key metric policy_id =
    duplicates_lower (lower limit_key) (lower metric) (lower policy_id)

-- `pid_upper.startswith("INV-") or "INVARIANT" in pid_upper`
unfoldable pub names_invariant : String → Bool
names_invariant pid_upper = starts_with pid_upper "INV-" || contains "INVARIANT" pid_upper

module _ {F : Type 0} ⦃p : Prims F⦄ where
  unfoldable pub identity_errors : CanonicalContract F → List String
  identity_errors contract =
      error_if
        (mem (p.strip contract.subject.agent_id) placeholder_agent_ids
          || mem (p.strip contract.metadata.contract_id) placeholder_agent_ids)
        "PLACEHOLDER_IDENTITY: agent_id and contract_id must not be draft_agent"
      ++ error_if
          (p.strip contract.metadata.owner == ""
            || mem (p.strip contract.metadata.owner) placeholder_owners)
          "PLACEHOLDER_IDENTITY: owner must be a real human accountability email"

  -- the condition on an escalation threshold
  unfoldable pub leaks_confidence : F → AggregatePolicy F → Bool
  leaks_confidence confidence_below policy =
      contains "confidence" (p.lower policy.metric)
      && p.lt (p.abs (p.sub policy.threshold confidence_below)) (p.dec 1 9)

  -- the loop over `limits.items()`
  unfoldable pub duplicate_errors : AggregatePolicy F → Dict F → List String
  duplicate_errors policy [] = []
  duplicate_errors policy ((key, val) ∷ limits) =
      let rest = duplicate_errors policy limits in
      if p.lt (p.dec 1 9) (p.abs (p.sub policy.threshold val))
      then rest
      else error_if (aggregate_duplicates_limit_key p.lower key policy.metric policy.policy_id) (
          "AGGREGATE_DUP_LIMIT: " +s policy.policy_id +s " duplicates authority.limits." +s key
          +s " (single-transaction limit)")
        ++ rest

  -- the body of the loop over the aggregate policies
  unfoldable pub policy_errors : Dict F → F → AggregatePolicy F → List String
  policy_errors limits confidence_below policy =
      error_if (names_invariant (p.upper policy.policy_id)) (
        "INVARIANT_LEAKED_TO_AGGREGATE: policy_id " +s policy.policy_id
        +s " must not encode transaction invariants; use invariant_candidates")
      ++ (error_if (leaks_confidence confidence_below policy)
            "ESCALATION_LEAKED_TO_AGGREGATE: confidence threshold belongs in responsibility.escalation, not aggregate_policies"
          ++ duplicate_errors policy limits)

  unfoldable pub all_policy_errors : Dict F → F → List (AggregatePolicy F) → List String
  all_policy_errors limits confidence_below [] = []
  all_policy_errors limits confidence_below (policy ∷ policies) =
      policy_errors limits confidence_below policy
      ++ all_policy_errors limits confidence_below policies

  unfoldable pub validate_authoring_contract :
      ⦃y : Pydantic F⦄
      → (Exc → String)
      → (CanonicalContract F → Fields F)
      → CanonicalContract F
      → Res (List String)
  validate_authoring_contract exc_text dump contract = do
    found ← validate_contract_invariant_ir exc_text (dump contract)
    ok (
        identity_errors contract
        ++ (all_policy_errors (numeric_limits contract.authority)
              contract.responsibility.escalation.confidence_below contract.aggregate_policies
            ++ found))
