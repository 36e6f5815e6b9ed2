-- ===== src/Contract/Candidates.antt =====
-- tools/contract/schema.py: a governance range candidate, a predicate in the form that a model
-- writes, as a range invariant of the kernel. `collect` recurses on what `get` finds in a dict: it
-- runs here on fuel, for which the nesting of the predicate is enough. The order of "min" and "max" in
-- the resulting dict, which no reader sees, is fixed.
pub mod Fuel
pub mod Ranges
pub mod Meaning
use decision_intelligence_ru.Prelude.{
  Bool, Option, String, false, if◌then◌else◌, is_some, larger, none, not, or_else, some, suc, ℕ,
  ◌&&◌, ◌==◌, ◌||◌,
}
use decision_intelligence_ru.Python.{
  Fields, Prims, Res, Value, Values, cons, dict, drop_field, end, eqv, field, find_field, get_field,
  is_dict, list, nil, null, num, ok, raise, set_field, str, truthy, type_error, ◌>>=◌,
}
use decision_intelligence_ru.Python.Text.{contains, ◌+s◌}

-- how deeply dicts are nested in a value, not counting lists
unfoldable mutual
  pub nesting : {F : Type 0} → Value F → ℕ
  nesting (dict fs) = suc (nesting_fields fs)
  nesting _ = 0

  pub nesting_fields : {F : Type 0} → Fields F → ℕ
  nesting_fields end = 0
  nesting_fields (field k v fs) = larger (nesting v) (nesting_fields fs)

-- the dict `bounds` of the closure
pub record Bounds (F : Type 0) : Type 0 where
  pub min : Option F
  pub max : Option F

abbrev pub no_bounds : {F : Type 0} → Bounds F
no_bounds = record { min = none; max = none }

-- `left_field is None or right_field is None or left_field != right_field`
unfoldable pub same_field : Option String → Option String → Option String
same_field (some f) (some g) = if f == g then some f else none
same_field _ _ = none

module _ {F : Type 0} ⦃p : Prims F⦄ where
  -- Python's `max(a, b)` and `min(a, b)`
  unfoldable pub py_max : F → F → F
  py_max a b = if p.lt a b then b else a

  unfoldable pub py_min : F → F → F
  py_min a b = if p.lt b a then b else a

  unfoldable pub raise_min : F → Bounds F → Bounds F
  raise_min bound b = record b { min = some (py_max (or_else b.min bound) bound) }

  unfoldable pub lower_max : F → Bounds F → Bounds F
  lower_max bound b = record b { max = some (py_min (or_else b.max bound) bound) }

  -- `op` as far as the code tests it; a list or a dict is not hashable
  unfoldable pub op_text : Value F → Res String
  op_text (str s) = ok s
  op_text (list vs) = raise type_error
  op_text (dict fs) = raise type_error
  op_text _ = ok ""

  -- `variable.strip()`, where it is a text and not empty
  unfoldable pub variable_name : Value F → Option String
  variable_name (str s) = if p.strip s == "" then none else some (p.strip s)
  variable_name _ = none

  -- the tests and the updates behind `node.get("value")`
  unfoldable pub collect_bound :
      String → Option String → Value F → Bounds F → Option String × Bounds F
  collect_bound op (some name) (num bound) b =
      if op == "ge"
      then (some name, raise_min bound b)
      else if op == "le"
      then (some name, lower_max bound b)
      else (none, b)
  collect_bound op _ _ b = (none, b)

  unfoldable pub collect_leaf : Fields F → Bounds F → Res (Option String × Bounds F)
  collect_leaf node b = op_text (get_field "op" node) >>= λ op.
      ok (collect_bound op (variable_name (get_field "variable" node)) (get_field "value" node) b)

  -- `op == "and"`
  unfoldable pub is_and : Fields F → Bool
  is_and node = eqv (get_field "op" node) (str "and")

  unfoldable pub both_fields : Option String → Option String × Bounds F → Option String × Bounds F
  both_fields l (r, b) = (same_field l r, b)

  unfoldable pub collect : ℕ → Value F → Bounds F → Res (Option String × Bounds F)
  collect (suc n) (dict node) b =
      let both = collect n (get_field "left" node) b >>= λ l.
      collect n (get_field "right" node) l.1 >>= λ r. ok (both_fields l.0 r) in
      if is_and node then both else collect_leaf node b
  collect _ _ b = ok (none, b)

  -- `"min" in bounds and "max" in bounds and bounds["min"] > bounds["max"]`
  unfoldable pub crossed : Bounds F → Bool
  crossed b = elim b.min [
    | none ↦ false
    | some lo ↦ elim b.max [ none ↦ false | some hi ↦ p.lt hi lo ]
  ]

  unfoldable pub set_some : String → Option F → Fields F → Fields F
  set_some key none fs = fs
  set_some key (some x) fs = set_field key (num x) fs

  -- `a or b`
  unfoldable pub either : Value F → Value F → Value F
  either a b = if truthy a then a else b

  unfoldable pub set_reason : Value F → Fields F → Fields F
  set_reason null fs = fs
  set_reason reason fs = set_field "reason_code" reason fs

  unfoldable pub set_kinds : Option (Value F) → Fields F → Fields F
  set_kinds none fs = fs
  set_kinds (some kinds) fs = set_field "applies_to_policy_kinds" kinds fs

  -- the dict `normalized`
  unfoldable pub range_fields : Fields F → String → Bounds F → Fields F
  range_fields entry name b =
      let start = field "id" (either (get_field "id" entry) (get_field "invariant_id" entry)) (
        field "type" (str "range")
          (field "field" (str (if contains "." name then name else "params." +s name)) end)) in
      set_kinds (find_field "applies_to_actions" entry) (
        set_reason (either (get_field "reason_code" entry) (get_field "code" entry))
          (set_some "max" b.max (set_some "min" b.min start)))

  -- what follows the call of `collect`
  unfoldable pub range_of : Fields F → Option String × Bounds F → Option (Fields F)
  range_of entry (none, b) = none
  range_of entry (some name, b) =
      if (not (is_some b.min) && not (is_some b.max)) || crossed b
      then none
      else some (range_fields entry name b)

  unfoldable pub range_invariant_from_candidate : Fields F → Res (Option (Fields F))
  range_invariant_from_candidate entry =
      let predicate = get_field "predicate" entry in
      if is_dict predicate
      then (collect (nesting predicate) predicate no_bounds >>= λ found. ok (range_of entry found))
      else ok none

  -- `if new not in d and old in d: d[new] = d.pop(old)`
  unfoldable pub rename_field : String → String → Fields F → Fields F
  rename_field new old fs = elim (find_field new fs) [
    | some v ↦ fs
    | none ↦ elim (find_field old fs) [ none ↦ fs | some v ↦ set_field new v (drop_field old fs) ]
  ]

  unfoldable pub normalize_invariant : Value F → Res (Value F)
  normalize_invariant (dict entry) = range_invariant_from_candidate entry >>= λ found. ok (
      dict (
        or_else found (rename_field "reason_code" "code" (rename_field "id" "invariant_id" entry))))
  normalize_invariant entry = ok entry

  unfoldable pub normalize_entries : Values F → Res (Values F)
  normalize_entries nil = ok nil
  normalize_entries (cons entry entries) = normalize_invariant entry >>= λ first.
      normalize_entries entries >>= λ rest. ok (cons first rest)

  unfoldable pub normalize_authority_invariants : Value F → Res (Value F)
  normalize_authority_invariants (list entries) =
      normalize_entries entries >>= λ normalized. ok (list normalized)
  normalize_authority_invariants value = ok value
