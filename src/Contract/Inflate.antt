-- ===== src/Contract/Inflate.antt =====
-- tools/contract/flatten.py: a flat contract of the kernel as a canonical one. `model_validate` and
-- `model_dump` of pydantic are the arguments `validate` and `dump`.
use decision_intelligence_ru.Prelude.{
  List, String, [], if◌then◌else◌, is_some, none, not, or_else, some, ◌&&◌, ◌∷◌,
}
use decision_intelligence_ru.Python.{
  Fields, Prims, Res, Value, dict, dict_or_empty, find_field, get_field, is_null, le, list_or_empty,
  num, ok, set_field, str, to_float, ◌>>=◌,
}
use decision_intelligence_ru.Models.{fields_of, of_list}
use decision_intelligence_ru.Contract.{CanonicalContract, irreversible_limit_keys}
use decision_intelligence_ru.Contract.Flatten.{FlatContract, flatten_canonical}
use decision_intelligence_ru.Contract.Normalize.{normalize_contract_dict}

-- What a flattened contract is: a mapping as it was, or the flat form of a canonical contract.
pub data Flattened (F : Type 0) : Type 0 where
  unchanged : Fields F → Flattened F
  flattened : FlatContract F → Flattened F

module _ {F : Type 0} ⦃p : Prims F⦄ where
  -- `flat.get(key, default)`
  unfoldable pub get_or : String → Value F → Fields F → Value F
  get_or key default flat = or_else (find_field key flat) default

  -- the body of the loop over the limit keys
  unfoldable pub add_limit : Fields F → Fields F → String → Fields F → Fields F
  add_limit flat permissions key authority =
      if not (is_null (get_field key flat))
      then set_field key (get_field key flat) authority
      else elim (find_field key permissions) [
        | none ↦ authority
        | some limit ↦ set_field key limit authority
      ]

  unfoldable pub add_limits : Fields F → Fields F → List String → Fields F → Fields F
  add_limits flat permissions [] authority = authority
  add_limits flat permissions (key ∷ keys) authority =
      add_limits flat permissions keys (add_limit flat permissions key authority)

  -- percent points of what may be a fraction
  unfoldable pub percent_points : F → F
  percent_points fraction =
      if le fraction (p.dec 1 0) then p.mul fraction (p.dec 100 0) else fraction

  unfoldable pub add_drawdown : Fields F → Fields F → Res (Fields F)
  add_drawdown flat authority =
      if not (is_null (get_field "max_drawdown_limit" flat))
        && not (is_some (find_field "max_drawdown_limit_pct" authority))
      then (do
        fraction ← to_float (get_field "max_drawdown_limit" flat)
        ok (set_field "max_drawdown_limit_pct" (num (percent_points fraction)) authority))
      else ok authority

  -- the nested dict `legacy`
  unfoldable pub legacy : Fields F → Fields F → F → Fields F → Fields F
  legacy flat authority uncertainty thresholds = fields_of (
      ("agent_id", get_or "agent_id" (str "unknown_agent") flat)
      ∷ ("version", get_or "version" (str "1.0.0") flat)
      ∷ ("owner", get_or "owner" (str "owner@example.com") flat)
      ∷ ("role", get_or "role" (str "EXECUTOR") flat)
      ∷ ("mission", get_or "mission" (str "") flat)
      ∷ ("authority", dict authority)
      ∷ (
        "responsibility",
        dict (
            fields_of (
              ("explainability", get_or "explainability" (str "required") flat)
              ∷ ("evidence_level", get_or "evidence_level" (str "medium") flat)
              ∷ ("escalation", get_or "escalation" (str "mandatory") flat)
              ∷ ("escalate_on_uncertainty", num uncertainty)
              ∷ ("aggregate_thresholds", dict thresholds)
              ∷ [])),
      )
      ∷ [])

  -- the dict that goes to `from_raw`
  unfoldable pub inflate_legacy : Fields F → Res (Fields F)
  inflate_legacy flat = do
    permissions ← dict_or_empty (get_field "permissions" flat)
    instruments ← list_or_empty (get_field "authorized_instruments" flat)
    policy_types ← list_or_empty (get_field "allowed_policy_types" flat)
    authority ← add_drawdown flat (
        add_limits flat permissions irreversible_limit_keys (
          fields_of (
            ("authorized_instruments", of_list instruments)
            ∷ ("allowed_policy_types", of_list policy_types)
            ∷ [])))
    uncertainty ← to_float (get_or "escalate_on_uncertainty" (num (p.dec 7 1)) flat)
    thresholds ← dict_or_empty (get_field "aggregate_thresholds" flat)
    ok (legacy flat authority uncertainty thresholds)

  -- `CanonicalContract.from_raw`
  unfoldable pub from_raw :
      (Fields F → Res (CanonicalContract F)) → Fields F → Res (CanonicalContract F)
  from_raw validate raw = do out ← normalize_contract_dict raw; validate out

  unfoldable pub inflate_flat_to_canonical :
      (Fields F → Res (CanonicalContract F))
      → (CanonicalContract F → Fields F)
      → Fields F
      → Res (Fields F)
  inflate_flat_to_canonical validate dump flat = do
    nested ← inflate_legacy flat
    contract ← from_raw validate nested
    ok (dump contract)

  unfoldable pub flatten_contract_dict :
      (Fields F → Res (CanonicalContract F)) → Fields F → Res (Flattened F)
  flatten_contract_dict validate contract_dict = elim (find_field "authority" contract_dict) [
    | none ↦ ok (unchanged contract_dict)
    | some authority ↦ do
      contract ← from_raw validate contract_dict
      ok (flattened (flatten_canonical contract))
  ]
