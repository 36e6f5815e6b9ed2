-- ===== src/Contract/Normalize/LimitValues.antt =====
-- The values of the limits in a normalised contract.
use decision_intelligence_ru.Prelude.{String, ℤ, false, true, ◌≡◌, ◌⊎◌}
use decision_intelligence_ru.Python.{
  Fields, Prims, Value, Values, bool, datetime, dict, end, field, list, null, num, str,
}
use decision_intelligence_ru.Contract.{limit_unit, normalize_limit_key}

module _ {F : Type 0} where
  -- No entry of the dict has the canonical name.
  abbrev pub NoneNamed : String → Fields F → Type 0
  NoneNamed name end = Unit
  NoneNamed name (field k w fs) = (normalize_limit_key k ≡ name → ⊥) × NoneNamed name fs

  -- The entry stands in the dict, and none of its canonical name after it.
  abbrev pub IsLast : String → Value F → Fields F → Type 0
  IsLast key v end = ⊥
  IsLast key v (field k w fs) =
      ((k ≡ key) × (w ≡ v) × NoneNamed (normalize_limit_key key) fs) ⊎ IsLast key v fs

  -- a limit as the schema reads it
  abbrev pub with_unit : String → F → Value F
  with_unit name x = dict (field "value" (num x) (field "unit" (str (limit_unit name)) end))

module _ {F : Type 0} ⦃p : Prims F⦄ where
  -- What becomes of a limit: a number, True and False too, gets the unit of its name, another value
  -- stays.
  pub data IsLimitOf (name : String) : Value F → Value F → Type 0 where
    number : (x : F) → IsLimitOf name (num x) (with_unit name x)
    flag_true : IsLimitOf name (bool true) (with_unit name (p.dec 1 0))
    flag_false : IsLimitOf name (bool false) (with_unit name (p.dec 0 0))
    absent : IsLimitOf name null null
    text : (s : String) → IsLimitOf name (str s) (str s)
    time : (t : ℤ) → IsLimitOf name (datetime t) (datetime t)
    items : (vs : Values F) → IsLimitOf name (list vs) (list vs)
    mapping : (fs : Fields F) → IsLimitOf name (dict fs) (dict fs)
