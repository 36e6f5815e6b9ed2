-- ===== src/Contract/InvariantIr.antt =====
-- tools/contract/governance/validation.py: the blocking checks of a contract's invariants, over
-- `compile_authority_invariants` of the kernel. `exc_text` is the text of an exception.
pub mod Accepted
use decision_intelligence_ru.Prelude.{
  Bool, List, Option, String, [], any, false, if◌then◌else◌, is_empty, is_some, none, not, or_else,
  some, true, ◌&&◌, ◌++◌, ◌==◌, ◌∷◌,
}
use decision_intelligence_ru.Python.{
  Exc, Fields, Prims, Res, Value, dict, dict_or_empty, find_field, get_field, list_or_empty, ok,
  raise, str, to_text, ◌>>=◌,
}
use decision_intelligence_ru.Python.Text.{◌+s◌}
use decision_intelligence_ru.Models.{InvariantSpec, Pydantic}
use decision_intelligence_ru.InvariantCompile.{
  compile_authority_invariants, compile_sugar_invariants,
}
use decision_intelligence_ru.Contract.Bootstrap.{error_if}
use decision_intelligence_ru.Contract.Normalize.{normalize_contract_dict}

-- `not spec.snapshot_path`
abbrev pub no_path : Option String → Bool
no_path none = true
no_path (some path) = path == ""

module _ {F : Type 0} ⦃p : Prims F⦄ where
  abbrev pub is_text : Value F → Bool
  is_text (str s) = true
  is_text _ = false

  -- the errors of one compiled rule
  unfoldable pub set_errors : InvariantSpec F → List String
  set_errors spec =
      error_if (is_empty spec.allowed && is_empty spec.denied)
        ("INVARIANT_SET_EMPTY: " +s spec.id +s " requires allowed or denied values")
      ++ error_if (not (is_empty spec.allowed) && not (is_empty spec.denied))
          ("INVARIANT_SET_MODE: " +s spec.id +s " cannot declare both allowed and denied")
      ++ error_if (spec.match == "substring" && not (is_empty spec.allowed))
          ("INVARIANT_SET_SUBSTRING_MODE: " +s spec.id +s " requires denied values")
      ++ error_if (spec.match == "substring" && any (λ v. not (is_text v)) spec.denied)
          ("INVARIANT_SET_SUBSTRING_TYPE: " +s spec.id +s " requires string values")

  unfoldable pub spec_errors : InvariantSpec F → List String
  spec_errors spec =
      if spec.type == "range"
      then error_if (not (is_some spec.max) && not (is_some spec.min))
          ("INVARIANT_RANGE_EMPTY: " +s spec.id +s " requires min or max")
      else if spec.type == "set"
      then set_errors spec
      else if spec.type == "state_match"
      then error_if (no_path spec.snapshot_path)
          ("INVARIANT_STATE_MATCH_PATH: " +s spec.id +s " requires snapshot_path")
      else []

  -- the loop over the compiled rules
  unfoldable pub all_spec_errors : List (InvariantSpec F) → List String
  all_spec_errors [] = []
  all_spec_errors (spec ∷ specs) = spec_errors spec ++ all_spec_errors specs

  -- the inner loop over `sugar`
  unfoldable pub field_conflicts : String → String → String → List (InvariantSpec F) → List String
  field_conflicts inv_id inv_type inv_field [] = []
  field_conflicts inv_id inv_type inv_field (spec ∷ sugar) =
      error_if (spec.type == inv_type && spec.field == inv_field && not (spec.id == inv_id)) (
        "INVARIANT_FIELD_CONFLICT: explicit " +s inv_id +s " overlaps sugar " +s spec.id +s " on ("
        +s inv_type +s ", " +s inv_field +s ")")
      ++ field_conflicts inv_id inv_type inv_field sugar

  -- `str(entry.get(key, ""))`
  unfoldable pub text_of : String → Fields F → String
  text_of key entry = to_text (or_else (find_field key entry) (str ""))

  -- the errors of one explicit entry
  unfoldable pub entry_conflicts : List (InvariantSpec F) → Value F → List String
  entry_conflicts sugar (dict entry) =
      error_if (any (λ spec. spec.id == text_of "id" entry) sugar) (
        "INVARIANT_ID_CONFLICT: explicit invariant "
        +s text_of "id" entry
        +s " duplicates compiled sugar IR")
      ++ field_conflicts (text_of "id" entry) (p.lower (text_of "type" entry))
          (text_of "field" entry) sugar
  entry_conflicts sugar _ = []

  unfoldable pub all_conflicts : List (InvariantSpec F) → List (Value F) → List String
  all_conflicts sugar [] = []
  all_conflicts sugar (entry ∷ entries) = entry_conflicts sugar entry ++ all_conflicts sugar entries

  -- `if not explicit: return []` and what follows it
  unfoldable pub conflicts_with_sugar : Fields F → Fields F → List (Value F) → Res (List String)
  conflicts_with_sugar authority normalized [] = ok []
  conflicts_with_sugar authority normalized (entry ∷ entries) = do
    conditions ← dict_or_empty (get_field "execution_conditions" normalized)
    sugar ← compile_sugar_invariants authority conditions
    ok (all_conflicts sugar (entry ∷ entries))

  unfoldable pub validate_authority_invariant_conflicts : Fields F → Res (List String)
  validate_authority_invariant_conflicts contract = do
    normalized ← normalize_contract_dict contract
    authority ← dict_or_empty (get_field "authority" normalized)
    explicit ← list_or_empty (get_field "invariants" authority)
    conflicts_with_sugar authority normalized explicit

  -- `compiled` is what the `try` leaves of `compile_authority_invariants`
  unfoldable pub ir_errors :
      (Exc → String) → Fields F → Res (List (InvariantSpec F)) → Res (List String)
  ir_errors exc_text contract (raise exc) = ok (("INVARIANT_COMPILE_FAILED: " +s exc_text exc) ∷ [])
  ir_errors exc_text contract (ok compiled) = do
    found ← validate_authority_invariant_conflicts contract
    ok (all_spec_errors compiled ++ found)

  unfoldable pub validate_contract_invariant_ir :
      ⦃y : Pydantic F⦄ → (Exc → String) → Fields F → Res (List String)
  validate_contract_invariant_ir exc_text contract =
      ir_errors exc_text contract (compile_authority_invariants contract)
