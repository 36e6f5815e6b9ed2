-- ===== src/Contract/Flatten.antt =====
-- tools/contract/flatten.py: a canonical contract as the flat one that src/dir_core reads.
use decision_intelligence_ru.Prelude.{List, Option, String, [], if◌then◌else◌, none, some, ◌∷◌}
use decision_intelligence_ru.Python.{Prims}
use decision_intelligence_ru.Dict
use decision_intelligence_ru.Dict.{Dict}
use decision_intelligence_ru.Contract.{
  CanonicalContract, ContractRole, LimitSpec, executor, interface, list_authorized_instruments,
  numeric_limits,
}

-- The keys of the flat dict; `none` for one that is not set.
pub record FlatContract (F : Type 0) : Type 0 where
  pub agent_id : String
  pub role : ContractRole
  pub mission : String
  pub authorized_instruments : List String
  pub allowed_policy_types : List String
  pub escalate_on_uncertainty : F
  pub max_drawdown_limit : Option F
  pub permissions : Option (Dict F)

unfoldable pub map_role_for_dir_core : ContractRole → ContractRole
map_role_for_dir_core interface = executor
map_role_for_dir_core role = role

module _ {F : Type 0} ⦃p : Prims F⦄ where
  unfoldable pub normalize_drawdown_fraction : F → F
  normalize_drawdown_fraction pct_or_fraction =
      if p.lt (p.dec 1 0) pct_or_fraction
      then p.div pct_or_fraction (p.dec 100 0)
      else pct_or_fraction

  unfoldable pub drawdown_of : Option (LimitSpec F) → Option F
  drawdown_of none = none
  drawdown_of (some limit) = some (normalize_drawdown_fraction limit.value)

  -- `if permissions: flat["permissions"] = permissions`
  unfoldable pub permissions_of : Dict F → Option (Dict F)
  permissions_of [] = none
  permissions_of (limit ∷ limits) = some (limit ∷ limits)

  unfoldable pub flatten_canonical : CanonicalContract F → FlatContract F
  flatten_canonical canonical = record {
    agent_id = canonical.subject.agent_id;
    role = map_role_for_dir_core canonical.subject.role;
    mission = canonical.mission;
    authorized_instruments = list_authorized_instruments canonical.authority;
    allowed_policy_types = canonical.authority.allowed_policy_types;
    escalate_on_uncertainty = canonical.responsibility.escalation.confidence_below;
    max_drawdown_limit = drawdown_of (Dict.get "max_drawdown_limit_pct" canonical.authority.limits);
    permissions = permissions_of (numeric_limits canonical.authority);
  }
