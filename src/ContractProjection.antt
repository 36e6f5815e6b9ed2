-- ===== src/ContractProjection.antt =====
-- src/dir_core/contract_projection.py: a contract mapping, normalised to the projection that the
-- registry and the DIM read. What pydantic validates is the parameter `Pydantic`.
use decision_intelligence_ru.Prelude.{
  Bool, List, Option, String, [], false, if◌then◌else◌, is_empty, is_some, none, not, or_else, some,
  true, ◌&&◌, ◌==◌, ◌||◌, ◌∷◌,
}
use text.Mathlib.Text.{starts_with}
use decision_intelligence_ru.Python.{
  Fields, Prims, Res, Value, dict, dict_or_empty, end, field, find_field, get_field, is_dict,
  is_null, items, list, list_or_empty, nil, num, ok, raise, set_field, str, to_list, to_text,
  truthy, validation_error, ◌>>=◌,
}
use decision_intelligence_ru.Models.{
  ContractReleaseRef, InvariantSpec, Pydantic, RuntimeContractProjection, fields_of, of_list,
  of_texts,
}
use decision_intelligence_ru.InvariantCompile.{
  compile_authority_invariants, invariants_to_transaction_limits,
}

-- the keys of a flat legacy contract that state authority
is_authority_key : String → Bool
is_authority_key key =
    key == "allowed_policy_types" || key == "authorized_instruments" || starts_with key "max_"

-- the keys of an authority that may be limits
is_limit_source : String → Bool
is_limit_source key = not (
    key == "allowed_policy_types"
    || key == "authorized_instruments"
    || key == "resource_scope"
    || key == "invariants")

module _ {F : Type 0} ⦃p : Prims F⦄ where
  -- `{"value": float(value)}` for a number, a dict with "value" as it is
  unfoldable pub as_limit : Value F → Option (Fields F)
  as_limit (num x) = some (field "value" (num x) end)
  as_limit (dict fs) = elim (find_field "value" fs) [ none ↦ none | some v ↦ some fs ]
  as_limit _ = none

  abbrev pub has : String → Fields F → Bool
  has k fs = is_some (find_field k fs)

  unfoldable pub is_projection_dump : Fields F → Bool
  is_projection_dump fs =
      (has "release" fs && (has "invariants" fs || has "transaction_limits" fs))
      || (has "agent_id" fs && has "invariants" fs && has "allowed_policy_types" fs)

  -- `fields.get(key, default)`
  abbrev pub get_or_default : String → Value F → Fields F → Value F
  get_or_default k d fs = or_else (find_field k fs) d

  unfoldable pub keep_fields : (String → Bool) → Fields F → Fields F
  keep_fields test end = end
  keep_fields test (field k v fs) =
      if test k then field k v (keep_fields test fs) else keep_fields test fs

  abbrev pub is_end : Fields F → Bool
  is_end end = true
  is_end (field k v fs) = false

  -- the `authority` of `_build_projection_from_contract_mapping`
  unfoldable pub effective_authority : Fields F → Fields F → Fields F → Fields F
  unfolding is_authority_key
  effective_authority contract authority legacy_permissions =
      if not (is_end authority)
      then authority
      else if not (is_end legacy_permissions)
      then legacy_permissions
      else if has "allowed_policy_types" contract || has "authorized_instruments" contract
      then keep_fields is_authority_key contract
      else authority

  -- `str(metadata.get(key, data.get(other, default)))`
  release_text : Fields F → Fields F → String → String → String → String
  release_text metadata contract key other default =
      to_text (get_or_default key (get_or_default other (str default) contract) metadata)

  unfoldable pub release_of : Fields F → Fields F → ContractReleaseRef
  unfolding release_text
  release_of metadata contract = record {
    contract_id = release_text metadata contract "contract_id" "contract_id" "legacy";
    contract_version = release_text metadata contract "version" "version" "0.0.0";
    api_version = release_text metadata contract "api_version" "api_version" "legacy";
    contract_hash = release_text metadata contract "contract_hash" "contract_hash" "";
  }

  unfoldable pub limit_sources : Fields F → Res (Fields F)
  unfolding is_limit_source
  limit_sources authority = do
    limits ← dict_or_empty (get_field "limits" authority)
    ok (if is_end limits then keep_fields is_limit_source authority else limits)

  -- `limits.setdefault(key, value)` for every source that has a limit's shape
  unfoldable pub default_limits : Fields F → Fields F → Fields F
  default_limits end limits = limits
  default_limits (field k v sources) limits = default_limits sources (elim (as_limit v) [
    | none ↦ limits
    | some l ↦ if has k limits then limits else set_field k (dict l) limits
  ])

  -- `evidence` of the projection
  unfoldable pub evidence_of : Fields F → Res (Fields F)
  evidence_of responsibility = do
    evidence ← dict_or_empty (get_field "evidence" responsibility)
    ok (
        if is_end evidence && has "evidence_level" responsibility
        then set_field "level" (get_field "evidence_level" responsibility) evidence
        else evidence)

  -- `escalation` of the projection
  unfoldable pub escalation_of : Fields F → Res (Fields F)
  escalation_of responsibility = do
    escalation ← dict_or_empty (get_field "escalation" responsibility)
    let mode =
        if has "escalation" responsibility
        then set_field "mode" (get_field "escalation" responsibility) escalation
        else escalation
    ok (
        if not (is_end escalation)
        then escalation
        else if has "escalate_on_uncertainty" responsibility
        then set_field "confidence_below" (get_field "escalate_on_uncertainty" responsibility) mode
        else mode)

  -- `mission_value`, as a text
  unfoldable pub mission_of : Value F → String
  mission_of (dict fs) = to_text (get_or_default "statement" (str "") fs)
  mission_of v = to_text v

  -- `aggregate_raw` where it is a list
  unfoldable pub aggregate_of : Value F → List (Value F)
  aggregate_of (list vs) = items vs
  aggregate_of _ = []

  -- `a or b or []`, as a list
  unfoldable pub first_list : Value F → Value F → Res (List (Value F))
  first_list a b = if truthy a then to_list a else list_or_empty b

  unfoldable pub build_projection_from_contract_mapping :
      ⦃y : Pydantic F⦄ → Fields F → Res (RuntimeContractProjection F)
  build_projection_from_contract_mapping ⦃y⦄ contract = do
    metadata ← dict_or_empty (get_field "metadata" contract)
    subject ← dict_or_empty (get_field "subject" contract)
    own_authority ← dict_or_empty (get_field "authority" contract)
    responsibility ← dict_or_empty (get_field "responsibility" contract)
    governance ← dict_or_empty (get_field "governance" contract)
    legacy ← dict_or_empty (get_field "permissions" contract)
    let authority = effective_authority contract own_authority legacy
    invariants ← compile_authority_invariants contract
    sources ← limit_sources authority
    evidence ← evidence_of responsibility
    escalation ← escalation_of responsibility
    allowed ←
        first_list (get_field "allowed_policy_types" authority)
          (get_field "allowed_policy_types" legacy)
    scope ← dict_or_empty (get_field "resource_scope" authority)
    conditions ← dict_or_empty (get_field "execution_conditions" contract)
    y.make_projection (record {
      release = release_of metadata contract;
      agent_id =
          to_text (get_or_default "agent_id" (get_or_default "agent_id" (str "") contract) subject);
      role = get_or_default "role" (get_or_default "role" (str "EXECUTOR") contract) subject;
      mission = mission_of (get_or_default "mission" (str "") contract);
      allowed_policy_types = allowed;
      resource_scope = scope;
      transaction_limits = default_limits sources (invariants_to_transaction_limits invariants);
      execution_conditions = conditions;
      evidence_requirements = evidence;
      escalation_policy = escalation;
      aggregate_policies = aggregate_of (get_field "aggregate_policies" governance);
      invariants = invariants;
    })

  release_value : ContractReleaseRef → Value F
  release_value r = dict (
      fields_of (
        ("contract_id", str r.contract_id)
        ∷ ("contract_version", str r.contract_version)
        ∷ ("api_version", str r.api_version)
        ∷ ("contract_hash", str r.contract_hash)
        ∷ []))

  -- the mapping that `ensure_projection_invariants` rebuilds a legacy projection from
  unfoldable pub legacy_contract : RuntimeContractProjection F → Fields F
  unfolding release_value
  legacy_contract q = fields_of (
      ("metadata", release_value q.release)
      ∷ ("subject", dict (fields_of (("agent_id", str q.agent_id) ∷ ("role", str q.role) ∷ [])))
      ∷ ("mission", dict (fields_of (("statement", str q.mission) ∷ [])))
      ∷ (
        "authority",
        dict (
            fields_of (
              ("allowed_policy_types", of_texts q.allowed_policy_types)
              ∷ ("resource_scope", dict q.resource_scope)
              ∷ ("limits", dict q.transaction_limits)
              ∷ [])),
      )
      ∷ ("execution_conditions", dict q.execution_conditions)
      ∷ ("responsibility", dict (fields_of (("escalation", dict q.escalation_policy) ∷ [])))
      ∷ ("governance", dict (fields_of (("aggregate_policies", of_list q.aggregate_policies) ∷ [])))
      ∷ [])

  -- the projection states nothing that could be compiled
  unfoldable pub states_nothing : RuntimeContractProjection F → Bool
  states_nothing q =
      is_empty q.allowed_policy_types
      && is_end q.transaction_limits
      && not (truthy (get_field "instruments" q.resource_scope))
      && is_end q.execution_conditions

  -- Validating the dump of a projection gives the projection back: the copy is a record update.
  unfoldable pub ensure_projection_invariants :
      ⦃y : Pydantic F⦄ → RuntimeContractProjection F → Res (RuntimeContractProjection F)
  ensure_projection_invariants q =
      if not (is_empty q.invariants) || states_nothing q then ok q else do
        rebuilt ← build_projection_from_contract_mapping (legacy_contract q)
        ok (
            if is_empty rebuilt.invariants then q else record q {
              invariants = rebuilt.invariants;
              transaction_limits = rebuilt.transaction_limits;
            })

  -- `[Model.model_validate(entry) for entry in entries]`
  unfoldable pub validate_each : {A : Type 0} → (Fields F → Res A) → List (Value F) → Res (List A)
  validate_each f [] = ok []
  validate_each f (dict fs ∷ rest) = do a ← f fs; as' ← validate_each f rest; ok (a ∷ as')
  validate_each f (_ ∷ rest) = raise validation_error

  -- the changes that `_parse_projection_dump` makes to the payload besides the validated lists
  unfoldable pub patch_payload : Fields F → List (InvariantSpec F) → Fields F
  patch_payload payload invariants =
      let limited =
        if not (truthy (get_field "transaction_limits" payload)) && not (is_empty invariants)
        then set_field "transaction_limits" (dict (invariants_to_transaction_limits invariants))
            payload
        else payload in
      if is_null (get_field "aggregate_policies" limited)
        || is_dict (get_field "aggregate_policies" limited)
      then set_field "aggregate_policies" (list nil) limited
      else limited

  unfoldable pub parse_projection_dump :
      ⦃y : Pydantic F⦄ → Fields F → Res (RuntimeContractProjection F)
  parse_projection_dump ⦃y⦄ payload = do
    raw_invariants ← list_or_empty (get_field "invariants" payload)
    invariants ← validate_each y.validate_spec raw_invariants
    raw_amendments ← list_or_empty (get_field "parameter_amendments" payload)
    amendments ← validate_each y.validate_amendment raw_amendments
    q ← y.validate_projection (patch_payload payload invariants) invariants amendments
    ensure_projection_invariants q

  unfoldable pub project_contract : ⦃y : Pydantic F⦄ → Fields F → Res (RuntimeContractProjection F)
  project_contract contract =
      if is_projection_dump contract
      then parse_projection_dump contract
      else (build_projection_from_contract_mapping contract >>= ensure_projection_invariants)
