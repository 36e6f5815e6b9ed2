-- ===== src/Contract/Bootstrap.antt =====
-- tools/contract/bootstrap_rules.py: the rules of a first published contract. The answer is the list
-- of errors that the exception carries; with none, the code returns.
use decision_intelligence_ru.Prelude.{
  Bool, List, Option, String, [], if◌then◌else◌, is_empty, is_some, none, not, some, ◌++◌, ◌==◌,
  ◌∷◌,
}
use decision_intelligence_ru.Python.{Prims, le, num}
use decision_intelligence_ru.Python.Text.{join, ◌+s◌}
use decision_intelligence_ru.Dict
use decision_intelligence_ru.Dict.{Dict, keys}
use decision_intelligence_ru.Contract.{
  CanonicalContract, ContractRole, interface, irreversible_limit_keys, monitor, numeric_limits,
}
use decision_intelligence_ru.Contract.Presets.{get_preset}

-- `if failed: errors.append(message)`
unfoldable pub error_if : Bool → String → List String
error_if failed message = if failed then message ∷ [] else []

-- `preset or "generic"`
unfoldable pub preset_name : Option String → String
preset_name none = "generic"
preset_name (some name) = if name == "" then "generic" else name

-- `if missing: errors.append(...)`
unfoldable pub missing_error : String → List String → List String
missing_error name [] = []
missing_error name (key ∷ keys) =
    ("preset '" +s name +s "' requires irreversible limits: " +s join ", " (key ∷ keys)) ∷ []

module _ {F : Type 0} ⦃p : Prims F⦄ where
  -- the loop at the end over `limits.items()`
  unfoldable pub limit_errors : Dict F → List String
  limit_errors [] = []
  limit_errors ((key, value) ∷ limits) =
      error_if (le value (p.dec 0 0))
        ("irreversible limit '" +s key +s "' must be > 0 (got " +s p.show (num value) +s ")")
      ++ limit_errors limits

  -- the keys of the list that are not in the dict
  unfoldable pub missing_keys : Dict F → List String → List String
  missing_keys limits [] = []
  missing_keys limits (key ∷ keys) =
      if is_some (Dict.get key limits)
      then missing_keys limits keys
      else key ∷ missing_keys limits keys

  -- the chain on `required_keys` and `limits`
  unfoldable pub required_errors : String → List String → Dict F → List String
  required_errors name [] limits = error_if (is_empty limits) (
      "at least one positive irreversible limit is required "
      +s "(one of: "
      +s join ", " irreversible_limit_keys
      +s ")")
  required_errors name (key ∷ keys) limits = missing_error name (missing_keys limits (key ∷ keys))

  -- what the role decides
  unfoldable pub role_errors : ContractRole → String → CanonicalContract F → List String
  role_errors interface name contract =
      error_if (not (is_empty contract.authority.allowed_policy_types))
        "INTERFACE agents must not declare allowed_policy_types (zero execution authority)"
  role_errors monitor name contract =
      error_if (not (is_empty (numeric_limits contract.authority)))
        "MONITOR agents should not declare monetary irreversible limits"
  role_errors role name contract =
      required_errors name (get_preset {F = F} name).required_limit_keys
        (numeric_limits contract.authority)
      ++ limit_errors (numeric_limits contract.authority)

  unfoldable pub validate_bootstrap : CanonicalContract F → Option String → List String
  validate_bootstrap contract preset =
      error_if (p.strip contract.subject.agent_id == "") "agent_id must not be empty"
      ++ error_if (p.strip contract.metadata.owner == "") "owner must be set (human accountability)"
      ++ error_if (p.strip contract.mission == "") "mission must not be empty"
      ++ error_if (not (contract.metadata.version == "1.0.0")) (
          "bootstrap contracts must start at version 1.0.0 (got " +s contract.metadata.version
          +s ")")
      ++ role_errors contract.subject.role (preset_name preset) contract
