-- ===== src/Wakeup.antt =====
-- src/dir_core/wakeup.py: predicates that are asked before an agent is woken. A condition may raise.
pub mod Asked
use decision_intelligence_ru.Prelude.{
  Bool, List, String, [], false, if◌then◌else◌, map, or_else, true, ◌∷◌,
}
use decision_intelligence_ru.Python.{
  Fields, Prims, Res, Value, bool, find_field, get_field, member, num, of_bool, ok, raise, str,
  type_error, ◌>>=◌,
}

pub record WakeupPredicate (F : Type 0) : Type 0 where
  pub name : String
  pub condition : Fields F → Res Bool

module _ {F : Type 0} where
  unfoldable pub evaluate : WakeupPredicate F → Fields F → Res Bool
  evaluate predicate payload = predicate.condition payload

  -- the loop over the predicates: the first that is false, or raises, ends it
  unfoldable pub should_wake : Fields F → List (WakeupPredicate F) → Res Bool
  should_wake payload [] = ok true
  should_wake payload (predicate ∷ predicates) =
      let rest = should_wake payload predicates in
      elim (evaluate predicate payload) [
        | raise e ↦ raise e
        | ok wanted ↦ if wanted then rest else ok false
      ]

module _ {F : Type 0} ⦃p : Prims F⦄ where
  -- a value that `abs` and `>` take
  unfoldable pub as_number : Value F → Res F
  as_number (num x) = ok x
  as_number (bool b) = ok (of_bool b)
  as_number _ = raise type_error

  unfoldable pub get_or_zero : String → Fields F → Value F
  get_or_zero key payload = or_else (find_field key payload) (num (p.dec 0 0))

  unfoldable pub price_change_significant : F → Fields F → Res Bool
  price_change_significant threshold payload =
      as_number (get_or_zero "price_delta_pct" payload) >>= λ x. ok (p.lt threshold (p.abs x))

  unfoldable pub volatility_elevated : F → Fields F → Res Bool
  volatility_elevated threshold payload =
      as_number (get_or_zero "volatility" payload) >>= λ x. ok (p.lt threshold x)

  unfoldable pub is_relevant_instrument : List String → Fields F → Res Bool
  is_relevant_instrument instruments payload =
      ok (member (get_field "instrument" payload) (map str instruments))
