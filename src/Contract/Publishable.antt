-- ===== src/Contract/Publishable.antt =====
-- When a first contract passes the rules of tools/contract/bootstrap_rules.py.
use decision_intelligence_ru.Prelude.{
  Option, String, [], arith, eq_iff, not, refl, ◌==◌, ◌↔◌, ◌≡◌, ◌≢◌,
}
use decision_intelligence_ru.Python.{Prims}
use decision_intelligence_ru.Contract.{
  CanonicalContract, ContractRole, executor, interface, monitor, numeric_limits, strategist,
}
use decision_intelligence_ru.Contract.Bootstrap.{
  error_if, preset_name, role_errors, validate_bootstrap,
}
use decision_intelligence_ru.Contract.Presets.{get_preset}
use decision_intelligence_ru.Contract.Errors.{
  append_nils, both_nil, error_if-nil, four_nil, nil_four, no_items, set_text, unset_text,
}
use decision_intelligence_ru.Contract.PositiveLimits.{
  HasLimit, IsBounded, IsBounded-required_errors, none_left, none_positive, positive_errors,
  required_errors-IsBounded,
}

module _ {F : Type 0} ⦃p : Prims F⦄ where
  -- What the rules ask of a role.
  pub data RoleAllows (c : CanonicalContract F) (name : String) : ContractRole → Type 0 where
    no_action : c.authority.allowed_policy_types ≡ [] → RoleAllows c name interface
    no_limit : ((key : String) → HasLimit c.authority.limits key → ⊥) → RoleAllows c name monitor
    bounded_strategist :
        IsBounded c.authority.limits (get_preset {F = F} name).required_limit_keys
        → RoleAllows c name strategist
    bounded_executor :
        IsBounded c.authority.limits (get_preset {F = F} name).required_limit_keys
        → RoleAllows c name executor

  pub data IsPublishable (c : CanonicalContract F) (name : String) : Type 0 where
    publishable :
        p.strip c.subject.agent_id ≢ ""
        → p.strip c.metadata.owner ≢ ""
        → p.strip c.mission ≢ ""
        → c.metadata.version ≡ "1.0.0"
        → RoleAllows c name c.subject.role
        → IsPublishable c name

  role_sound :
      (c : CanonicalContract F) (name : String) (role : ContractRole)
      → role_errors role name c ≡ []
      → RoleAllows c name role
  unfolding role_errors numeric_limits
  role_sound c name interface h = no_action (no_items _ (error_if-nil _ _ h))
  role_sound c name monitor h =
      no_limit (λ key found. none_positive c.authority.limits (error_if-nil _ _ h) key found)
  role_sound c name strategist h =
      bounded_strategist (IsBounded-required_errors name _ c.authority.limits (both_nil _ _ h).0)
  role_sound c name executor h =
      bounded_executor (IsBounded-required_errors name _ c.authority.limits (both_nil _ _ h).0)

  role_complete :
      (c : CanonicalContract F) (name : String) (role : ContractRole)
      → RoleAllows c name role
      → role_errors role name c ≡ []
  unfolding role_errors numeric_limits error_if
  role_complete c name role (no_action h) = rw h refl
  role_complete c name role (no_limit h) = rw (none_left c.authority.limits h) refl
  role_complete c name role (bounded_strategist h) =
      append_nils _ _ (required_errors-IsBounded name _ c.authority.limits h)
        (positive_errors c.authority.limits)
  role_complete c name role (bounded_executor h) =
      append_nils _ _ (required_errors-IsBounded name _ c.authority.limits h)
        (positive_errors c.authority.limits)

  passed :
      (c : CanonicalContract F) (preset : Option String)
      → validate_bootstrap c preset ≡ []
      → IsPublishable c (preset_name preset)
  unfolding validate_bootstrap
  passed c preset h =
      let (a, b, m, v, r) =
        four_nil (p.strip c.subject.agent_id == "") (p.strip c.metadata.owner == "")
          (p.strip c.mission == "") (not (c.metadata.version == "1.0.0")) _ _ _ _
          (role_errors c.subject.role (preset_name preset) c) h in
      publishable (set_text _ a) (set_text _ b) (set_text _ m)
        (ground (arith, eq_iff c.metadata.version "1.0.0"))
        (role_sound c (preset_name preset) c.subject.role r)

  passes :
      (c : CanonicalContract F) (preset : Option String)
      → IsPublishable c (preset_name preset)
      → validate_bootstrap c preset ≡ []
  unfolding validate_bootstrap
  passes c preset (publishable a b m v r) =
      nil_four (p.strip c.subject.agent_id == "") (p.strip c.metadata.owner == "")
        (p.strip c.mission == "") (not (c.metadata.version == "1.0.0")) _ _ _ _
        (role_errors c.subject.role (preset_name preset) c) (unset_text _ a) (unset_text _ b)
        (unset_text _ m) (ground (arith, eq_iff c.metadata.version "1.0.0"))
        (role_complete c (preset_name preset) c.subject.role r)

  -- A first contract passes the bootstrap rules exactly when its agent id, owner and mission are more
  -- than white space, its version is 1.0.0, and its role is bounded: an interface has no action, a
  -- monitor no positive limit, any other role every limit that the preset requires as a positive one,
  -- or some positive limit where the preset requires none.
  pub validate_bootstrap-IsPublishable :
      (c : CanonicalContract F) (preset : Option String)
      → (validate_bootstrap c preset ≡ []) ↔ IsPublishable c (preset_name preset)
  validate_bootstrap-IsPublishable c preset = (passed c preset, passes c preset)
