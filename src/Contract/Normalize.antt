-- ===== src/Contract/Normalize.antt =====
-- tools/contract/schema.py: `normalize_contract_dict`, which brings the older and the model's forms of
-- a contract to the canonical one. `dict(x)` of something that is no dict raises.
pub mod Aliases
pub mod Keys
pub mod LimitNames
pub mod LimitValues
use decision_intelligence_ru.Prelude.{
  Bool, Option, String, false, if◌then◌else◌, mem, none, or_else, some, true, ◌==◌,
}
use decision_intelligence_ru.Python.{
  Fields, Prims, Res, Value, bool, dict, dict_or_empty, drop_field, end, field, find_field,
  get_field, list, null, num, of_bool, ok, set_field, str, update_fields, ◌>>=◌,
}
use decision_intelligence_ru.Contract.{irreversible_limit_keys, limit_unit, normalize_limit_key}
use decision_intelligence_ru.Contract.Candidates.{either, normalize_authority_invariants}
use decision_intelligence_ru.Contract.Aggregates.{normalize_aggregate_policies}

-- `canonical_key in IRREVERSIBLE_LIMIT_KEYS`
unfoldable pub is_limit_key : String → Bool
is_limit_key key = mem (normalize_limit_key key) irreversible_limit_keys

module _ {F : Type 0} where
  -- `fields.setdefault(key, value)`
  unfoldable pub set_default : String → Value F → Fields F → Fields F
  set_default key value fs = elim (find_field key fs) [
    | none ↦ set_field key value fs
    | some v ↦ fs
  ]

  -- `fields.get(key, default)`
  unfoldable pub get_or : String → Value F → Fields F → Value F
  get_or key default fs = or_else (find_field key fs) default

  -- `if old in source: target.setdefault(new, source[old])`; the caller drops the key of the source
  unfoldable pub take_over : String → String → Fields F → Fields F → Fields F
  take_over new old source target = elim (find_field old source) [
    | none ↦ target
    | some v ↦ set_default new v target
  ]

  unfoldable pub move_limit : Bool → String → Value F → Fields F × Fields F → Fields F × Fields F
  move_limit true key value (authority, limits) =
      (drop_field key authority, set_default (normalize_limit_key key) value limits)
  move_limit false key value state = state

  -- the loop over the keys of the authority: a limit that stands at its top moves to the limits
  unfoldable pub move_limits : Fields F → Fields F × Fields F → Fields F × Fields F
  move_limits end state = state
  move_limits (field key value fs) state =
      move_limits fs (move_limit (is_limit_key key) key value state)

module _ {F : Type 0} ⦃p : Prims F⦄ where
  -- a number as `{"value": ..., "unit": ...}`
  unfoldable pub limit_value : String → Value F → Value F
  limit_value key (num x) = dict (field "value" (num x) (field "unit" (str (limit_unit key)) end))
  limit_value key (bool b) =
      dict (field "value" (num (of_bool b)) (field "unit" (str (limit_unit key)) end))
  limit_value key value = value

  -- the loop over `raw_limits.items()`
  unfoldable pub normalize_limits : Fields F → Fields F → Fields F
  normalize_limits end limits = limits
  normalize_limits (field key value raw) limits =
      normalize_limits raw
        (set_field (normalize_limit_key key) (limit_value (normalize_limit_key key) value) limits)

  unfoldable pub normalize_metadata : Fields F → Fields F → Fields F → Fields F
  normalize_metadata out subject metadata = take_over "owner" "owner" out (
      set_default "version" (get_or "version" (str "1.0.0") out) (
        set_default "contract_id" (either (get_field "agent_id" out) (get_field "agent_id" subject))
          metadata))

  unfoldable pub set_parent : Value F → Fields F → Fields F
  set_parent null subject = subject
  set_parent parent subject = set_default "parent_agent_id" parent subject

  unfoldable pub normalize_subject : Fields F → Fields F → Fields F
  normalize_subject out subject = set_parent (get_field "parent_agent_id" out) (
      set_default "role" (get_or "role" (str "EXECUTOR") out)
        (set_default "agent_id" (get_field "agent_id" out) subject))

  unfoldable pub normalize_mission : Value F → Value F
  normalize_mission (str s) = dict (field "statement" (str s) end)
  normalize_mission mission = mission

  -- `if isinstance(nested_exclusions, dict)` and what follows it
  unfoldable pub nest_exclusions : Value F → Fields F → Res (Fields F)
  nest_exclusions (dict nested) authority =
      dict_or_empty (get_field "exclusions" authority) >>= λ own.
      ok (set_field "exclusions" (dict (update_fields nested own)) authority)
  nest_exclusions _ authority = ok authority

  unfoldable pub nest_invariants : Option (Value F) → Fields F → Res (Fields F)
  nest_invariants none authority = ok authority
  nest_invariants (some value) authority = normalize_authority_invariants value >>= λ normalized.
      ok (set_field "invariants" normalized authority)

  -- `if isinstance(nested_limits, dict): raw_limits.update(nested_limits)`
  unfoldable pub update_limits : Value F → Fields F → Fields F
  update_limits (dict nested) limits = update_fields limits nested
  update_limits _ limits = limits

  -- the authority without its limits, and the raw limits of the three places they may stand in
  unfoldable pub gather_limits : Fields F → Res (Fields F × Fields F)
  gather_limits authority = dict_or_empty (get_field "limits" authority) >>= λ limits.
      let rest = drop_field "irreversible_limits" authority in
      ok (move_limits rest (rest, update_limits (get_field "irreversible_limits" authority) limits))

  unfoldable pub normalize_authority : Fields F → Res (Fields F)
  normalize_authority given = do
    given_scope ← dict_or_empty (get_field "resource_scope" given)
    let scope = take_over "instruments" "authorized_instruments" given given_scope
    excluding ←
        nest_exclusions (get_field "exclusions" scope) (drop_field "authorized_instruments" given)
    authority ← nest_invariants (find_field "invariants" excluding) excluding
    gathered ← gather_limits authority
    ok (
        set_field "limits" (dict (normalize_limits gathered.1 end))
          (set_field "resource_scope" (dict (drop_field "exclusions" scope)) gathered.0))

  -- `{"mode": escalation}` for a text, `dict(escalation)` otherwise
  unfoldable pub escalation_dict : Value F → Res (Fields F)
  escalation_dict (str s) = ok (if s == "" then end else field "mode" (str s) end)
  escalation_dict value = dict_or_empty value

  unfoldable pub normalize_responsibility : Fields F → Res (Fields F)
  normalize_responsibility given = do
    evidence ← dict_or_empty (get_field "evidence" given)
    escalation ← escalation_dict (get_field "escalation" given)
    ok (
        set_field "escalation"
          (dict (take_over "confidence_below" "escalate_on_uncertainty" given escalation))
          (set_field "evidence" (dict (take_over "level" "evidence_level" given evidence))
            (drop_field "escalate_on_uncertainty" (drop_field "evidence_level" given))))

  unfoldable pub set_policies : Option (Value F) → Fields F → Fields F
  set_policies none governance = governance
  set_policies (some value) governance =
      set_field "aggregate_policies" (list (normalize_aggregate_policies value)) governance

  unfoldable pub normalize_governance : Fields F → Fields F → Fields F → Fields F
  normalize_governance out responsibility given =
      let governance =
        take_over "aggregate_thresholds" "aggregate_monitors" out
          (take_over "aggregate_thresholds" "aggregate_thresholds" responsibility given) in
      set_policies (find_field "aggregate_policies" governance) governance

  -- the dict `canonical`, from its parts
  unfoldable pub canonical_fields :
      Fields F → Fields F → Fields F → Fields F → Fields F → Fields F → Fields F → Fields F
  canonical_fields out metadata subject authority conditions responsibility governance =
      field "api_version" (get_or "api_version" (str "roa.dir/v1") out) (
        field "kind" (get_or "kind" (str "ResponsibilityContract") out) (
          field "metadata" (dict metadata) (
            field "subject" (dict subject) (
              field "mission" (normalize_mission (either (get_field "mission" out) (dict end))) (
                field "authority" (dict authority) (
                  field "execution_conditions" (dict conditions) (
                    field "responsibility" (dict responsibility)
                      (field "governance" (dict governance) end))))))))

  unfoldable pub normalize_contract_dict : Fields F → Res (Fields F)
  normalize_contract_dict out = do
    metadata ← dict_or_empty (get_field "metadata" out)
    subject ← dict_or_empty (get_field "subject" out)
    given_authority ← dict_or_empty (get_field "authority" out)
    authority ← normalize_authority given_authority
    given_responsibility ← dict_or_empty (get_field "responsibility" out)
    responsibility ← normalize_responsibility given_responsibility
    given_governance ← dict_or_empty (get_field "governance" out)
    conditions ← dict_or_empty (get_field "execution_conditions" out)
    ok (
        canonical_fields out (normalize_metadata out subject metadata)
          (normalize_subject out subject) authority conditions
          (drop_field "aggregate_thresholds" responsibility)
          (normalize_governance out responsibility given_governance))
