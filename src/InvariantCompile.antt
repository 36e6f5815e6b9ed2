-- ===== src/InvariantCompile.antt =====
-- src/dir_core/invariant_compile.py: the fields of a contract, compiled to invariants for the DIM.
pub mod Merge
use decision_intelligence_ru.Prelude.{
  Bool, List, Option, String, [], any, false, if◌then◌else◌, keep, none, not, or_else, some, true,
  ◌&&◌, ◌++◌, ◌==◌, ◌||◌, ◌∷◌,
}
use decision_intelligence_ru.Dict
use decision_intelligence_ru.Dict.{Dict}
use text.Mathlib.Text.{starts_with}
use decision_intelligence_ru.Python.{
  Fields, Prims, Res, Value, dict, dict_or_empty, end, field, find_field, get_field, list_or_empty,
  null, num, ok, raise, set_field, str, to_float, truthy, ◌>>=◌,
}
use decision_intelligence_ru.Python.Text.{remove_first, remove_prefix, ◌+s◌}
use decision_intelligence_ru.Models.{InvariantSpec, Pydantic}

abbrev limit_to_param_field : Dict String
limit_to_param_field =
    ("max_order_size", "params.order_value")
    ∷ ("max_order_size_usd", "params.order_value")
    ∷ ("max_transaction_usd", "params.transaction_value")
    ∷ ("max_discount_pct", "params.discount_pct")
    ∷ ("max_premium_usd", "params.premium")
    ∷ ("max_limit_usd", "params.limit_value")
    ∷ ("max_refund_usd", "params.refund_value")
    ∷ ("max_drawdown_limit_pct", "params.drawdown_pct")
    ∷ []

unfoldable pub limit_field : String → String
limit_field limit_key =
    or_else (Dict.get limit_key limit_to_param_field) ("params." +s remove_first 4 "max_" limit_key)

module _ {F : Type 0} ⦃p : Prims F⦄ where
  -- the `_as_float` of this module: a number, or the number under "value"
  unfoldable pub as_float : Value F → Option F
  as_float (num x) = some x
  as_float (dict fs) = elim (find_field "value" fs) [
    | none ↦ none
    | some v ↦ elim (to_float v) [ ok x ↦ some x | raise e ↦ none ]
  ]
  as_float _ = none

  abbrev pub same_key : InvariantSpec F → InvariantSpec F → Bool
  same_key a b = (a.type == b.type) && (a.field == b.field)

  unfoldable pub conflicts : List (InvariantSpec F) → InvariantSpec F → Bool
  conflicts existing candidate =
      any (λ spec. spec.id == candidate.id) existing
      || any (λ spec. same_key spec candidate) existing

  -- `if not _conflicts(compiled, candidate): compiled.append(candidate)`
  unfoldable pub add_candidate : List (InvariantSpec F) → InvariantSpec F → List (InvariantSpec F)
  add_candidate compiled candidate =
      if conflicts compiled candidate then compiled else compiled ++ candidate ∷ []

  -- the defaults of `InvariantSpec`
  abbrev pub base_spec : String → String → String → String → InvariantSpec F
  base_spec id type path reason_code = record {
    id = id;
    type = type;
    field = path;
    min = none;
    max = none;
    allowed = [];
    denied = [];
    match = "exact";
    applies_to_policy_kinds = [];
    snapshot_path = none;
    expected = null;
    drift_envelope_pct = some (p.dec 0 0);
    reason_code = reason_code;
    runtime_amendable = false;
    min_floor = none;
    max_ceiling = none;
    amend_ttl_seconds = none;
  }

  unfoldable pub allowed_types_spec : List (Value F) → InvariantSpec F
  allowed_types_spec allowed =
      record (base_spec "INV_ALLOWED_POLICY_TYPES" "set" "policy_kind" "UNAUTHORIZED_POLICY_TYPE") {
        allowed = allowed;
      }

  unfoldable pub instrument_spec : List (Value F) → InvariantSpec F
  instrument_spec instruments =
      record (base_spec "INV_INSTRUMENT_SCOPE" "set" "params.instrument"
        "UNAUTHORIZED_INSTRUMENT") { allowed = instruments }

  unfoldable pub limit_spec : String → F → InvariantSpec F
  limit_spec limit_key maximum =
      record (base_spec ("INV_LIMIT_" +s p.upper limit_key) "range" (limit_field limit_key)
        "CONTRACT_LIMIT_EXCEEDED") {
          max = some maximum;
          runtime_amendable = true;
          min_floor = some (p.dec 0 0);
          max_ceiling = some maximum;
        }

  unfoldable pub industries_spec : List (Value F) → InvariantSpec F
  industries_spec industries =
      record (base_spec "INV_PROHIBITED_INDUSTRIES" "set" "params.industry" "PROHIBITED_INDUSTRY") {
        denied = industries;
      }

  unfoldable pub slippage_spec : F → InvariantSpec F
  slippage_spec pct =
      record (base_spec "INV_PRICE_SLIPPAGE" "state_match" "params.reference_price"
        "STALE_PRICE_CONTEXT") { snapshot_path = some "state.price"; drift_envelope_pct = some pct }

  -- a list that is only compiled if it is not empty
  unfoldable pub add_list :
      (List (Value F) → InvariantSpec F)
      → List (Value F)
      → List (InvariantSpec F)
      → List (InvariantSpec F)
  add_list spec [] compiled = compiled
  add_list spec (v ∷ vs) compiled = add_candidate compiled (spec (v ∷ vs))

  -- the loop over `limits.items()`
  unfoldable pub add_limits : Fields F → List (InvariantSpec F) → List (InvariantSpec F)
  add_limits end compiled = compiled
  add_limits (field key raw limits) compiled = add_limits limits (elim (as_float raw) [
    | none ↦ compiled
    | some maximum ↦ add_candidate compiled (limit_spec key maximum)
  ])

  -- `{key: value ... if key.startswith("max_") and key not in {"max_ceiling"}}`
  unfoldable pub max_fields : Fields F → Fields F
  max_fields end = end
  max_fields (field key v fs) =
      if starts_with key "max_" && not (key == "max_ceiling")
      then field key v (max_fields fs)
      else max_fields fs

  unfoldable pub limits_of : Fields F → Res (Fields F)
  limits_of authority = do
    limits ← dict_or_empty (get_field "limits" authority)
    ok (elim limits [ end ↦ max_fields authority | field k v fs ↦ field k v fs ])

  unfoldable pub add_slippage : Option F → List (InvariantSpec F) → List (InvariantSpec F)
  add_slippage none compiled = compiled
  add_slippage (some pct) compiled = add_candidate compiled (slippage_spec pct)

  unfoldable pub compile_sugar_invariants : Fields F → Fields F → Res (List (InvariantSpec F))
  compile_sugar_invariants authority execution_conditions = do
    allowed ← list_or_empty (get_field "allowed_policy_types" authority)
    scope ← dict_or_empty (get_field "resource_scope" authority)
    instruments ← list_or_empty (get_field "instruments" scope)
    limits ← limits_of authority
    exclusions ← dict_or_empty (get_field "exclusions" authority)
    industries ← list_or_empty (get_field "prohibited_industries" exclusions)
    ok (
        add_slippage (as_float (get_field "max_price_slippage" execution_conditions)) (
          add_list industries_spec industries (
            add_limits limits
              (add_list instrument_spec instruments (add_list allowed_types_spec allowed [])))))

  -- the loop over `explicit_raw`: mappings are validated, other entries are passed over
  unfoldable pub validate_explicit :
      ⦃y : Pydantic F⦄ → List (Value F) → Res (List (InvariantSpec F))
  validate_explicit [] = ok []
  validate_explicit ⦃y⦄ (dict fs ∷ rest) = do
    spec ← y.validate_spec fs
    specs ← validate_explicit rest
    ok (spec ∷ specs)
  validate_explicit (_ ∷ rest) = validate_explicit rest

  -- the loop over `sugar`: what an explicit rule has the id or the key of is dropped
  unfoldable pub not_explicit : List (InvariantSpec F) → InvariantSpec F → Bool
  not_explicit explicit spec = not (conflicts explicit spec)

  unfoldable pub merge_explicit :
      List (InvariantSpec F) → List (InvariantSpec F) → List (InvariantSpec F)
  merge_explicit explicit sugar = explicit ++ keep (not_explicit explicit) sugar

  -- `contract.get("authority") or contract.get("permissions") or {}`
  unfoldable pub authority_of : Fields F → Res (Fields F)
  authority_of contract =
      if truthy (get_field "authority" contract)
      then dict_or_empty (get_field "authority" contract)
      else dict_or_empty (get_field "permissions" contract)

  unfoldable pub compile_authority_invariants :
      ⦃y : Pydantic F⦄ → Fields F → Res (List (InvariantSpec F))
  compile_authority_invariants contract = do
    authority ← authority_of contract
    execution_conditions ← dict_or_empty (get_field "execution_conditions" contract)
    raw ← list_or_empty (get_field "invariants" authority)
    explicit ← validate_explicit raw
    sugar ← compile_sugar_invariants authority execution_conditions
    ok (merge_explicit explicit sugar)

  unfoldable pub limit_key : InvariantSpec F → String
  limit_key spec =
      if starts_with spec.id "INV_LIMIT_"
      then p.lower (remove_prefix 10 "INV_LIMIT_" spec.id)
      else spec.id

  -- the dict that one range rule contributes
  unfoldable pub limit_entry : InvariantSpec F → F → Fields F
  limit_entry spec maximum = field "value" (num maximum) (
      field "metric" (str (remove_prefix 7 "params." spec.field))
        (elim spec.min [ none ↦ end | some m ↦ field "min" (num m) end ]))

  limits_from : List (InvariantSpec F) → Fields F → Fields F
  limits_from [] limits = limits
  limits_from (spec ∷ specs) limits = limits_from specs (
      if spec.type == "range"
      then elim spec.max [
        | none ↦ limits
        | some m ↦ set_field (limit_key spec) (dict (limit_entry spec m)) limits
      ]
      else limits)

  unfoldable pub invariants_to_transaction_limits : List (InvariantSpec F) → Fields F
  unfolding limits_from
  invariants_to_transaction_limits invariants = limits_from invariants end
