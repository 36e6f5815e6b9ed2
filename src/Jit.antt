-- ===== src/Jit.antt =====
-- src/dir_core/jit.py: has the live state drifted since the snapshot. The tolerances are a dict of
-- floats; `none` for the keys or the tolerances is Python's None.
pub mod Steady
use decision_intelligence_ru.Prelude.{
  Bool, List, Option, String, [], false, if◌then◌else◌, none, not, or_else, some, true, ◌∷◌,
}
use decision_intelligence_ru.Dict
use decision_intelligence_ru.Dict.{Dict, keys}
use decision_intelligence_ru.Python.{
  Fields, Prims, Res, Value, eqv, field_keys, get_field, is_null, ok, raise, to_float, ◌>>=◌,
}
use decision_intelligence_ru.Python.Text.{◌+s◌}
use decision_intelligence_ru.Models.{ValidationVerdict, accept, reject}

-- `keys_to_compare or list(snapshot.keys())`
unfoldable pub compared_keys : {F : Type 0} → Option (List String) → Fields F → List String
compared_keys none snapshot = field_keys snapshot
compared_keys (some []) snapshot = field_keys snapshot
compared_keys (some (k ∷ ks)) snapshot = k ∷ ks

module _ {F : Type 0} ⦃p : Prims F⦄ where
  -- `float(value) if value is not None else 0.0`
  unfoldable pub number_or_zero : Value F → Res F
  number_or_zero v = if is_null v then ok (p.dec 0 0) else to_float v

  unfoldable pub drift_text : String → String → Value F → Value F → String
  drift_text key how snap live =
      "STATE_DRIFT: "
      +s key
      +s how
      +s " (snapshot="
      +s p.show snap
      +s ", live="
      +s p.show live
      +s ")"

  -- the `try` of a key with a tolerance: is the difference within it
  unfoldable pub near : F → Value F → Value F → Res Bool
  near t snap live = number_or_zero snap >>= λ x.
      number_or_zero live >>= λ y. ok (not (p.lt t (p.abs (p.sub x y))))

  unfoldable pub differ : String → String → Value F → Value F → Option String
  differ key how snap live = if eqv snap live then none else some (drift_text key how snap live)

  -- the reason that one key gives, with its tolerance
  unfoldable pub key_drift : Option F → String → Value F → Value F → Option String
  key_drift none key snap live = differ key " changed" snap live
  key_drift (some t) key snap live = elim (near t snap live) [
    | ok within ↦
        if within then none else some (drift_text key " changed beyond tolerance" snap live)
    | raise e ↦ differ key " mismatch" snap live
  ]

  -- the loop over the keys: the first reason
  unfoldable pub first_drift : Dict F → Fields F → Fields F → List String → Option String
  first_drift tolerance snapshot live [] = none
  first_drift tolerance snapshot live (key ∷ keys) =
      let rest = first_drift tolerance snapshot live keys in
      elim (key_drift (Dict.get key tolerance) key (get_field key snapshot) (get_field key live)) [
        | none ↦ rest
        | some reason ↦ some reason
      ]

  unfoldable pub verify_drift :
      Fields F → Fields F → Option (List String) → Option (Dict F) → Bool × String
  verify_drift snapshot live keys_to_compare tolerance =
      elim (first_drift (or_else tolerance []) snapshot live
        (compared_keys keys_to_compare snapshot)) [
          | none ↦ (true, "")
          | some reason ↦ (false, reason)
        ]

  unfoldable pub verify :
      Fields F → Fields F → Option (List String) → Option (Dict F) → ValidationVerdict × String
  verify snapshot live keys_to_compare tolerance =
      let (steady, reason) = verify_drift snapshot live keys_to_compare tolerance in
      if steady then (accept, "no state drift") else (reject, reason)
