-- ===== src/Contract/PositiveLimits.antt =====
-- The positive limits of a contract and what the bootstrap rules find in them.
use decision_intelligence_ru.Prelude.{
  All, Bool-cases, Has, List, String, [], ap, arith, eq_iff, false, false≢true, inl, inr, is_empty,
  is_some, not, refl, true, ◌==◌, ◌∷◌, ◌≡◌,
}
use decision_intelligence_ru.Python.{Prims}
use decision_intelligence_ru.Dict
use decision_intelligence_ru.Dict.{Dict, keys}
use decision_intelligence_ru.Contract.{LimitSpec, positive_limits}
use decision_intelligence_ru.Contract.Bootstrap.{
  error_if, limit_errors, missing_error, missing_keys, required_errors,
}
use decision_intelligence_ru.Contract.Errors.{cons_not_nil, error_if-nil, missing_nil}

module _ {F : Type 0} ⦃p : Prims F⦄ where
  -- The contract has a positive limit of the name.
  abbrev pub HasLimit : Dict (LimitSpec F) → String → Type 0
  HasLimit limits key =
      (limit : LimitSpec F) × Has (key, limit) limits × (p.lt (p.dec 0 0) limit.value ≡ true)

  -- Every required limit, or some limit where none is required by name.
  pub data IsBounded (limits : Dict (LimitSpec F)) : List String → Type 0 where
    any_limit : (key : String) → HasLimit limits key → IsBounded limits []
    all_limits :
        (key : String) (keys : List String)
        → All (HasLimit limits) (key ∷ keys)
        → IsBounded limits (key ∷ keys)

  later_limit :
      (k : String) (l : LimitSpec F) (limits : Dict (LimitSpec F)) (key : String)
      → HasLimit limits key
      → HasLimit ((k, l) ∷ limits) key
  later_limit k l limits key (limit, m, h) = (limit, inr m, h)

  pub get_limit :
      (limits : Dict (LimitSpec F)) (key : String)
      → is_some (Dict.get key (positive_limits limits)) ≡ true
      → HasLimit limits key
  unfolding positive_limits Dict.get
  get_limit [] key h = cc
  get_limit ((k, limit) ∷ limits) key h = elim (Bool-cases (p.lt (p.dec 0 0) limit.value)) [
    | inl e ↦ elim (Bool-cases (k == key)) [
      | inl q ↦ (limit, inl (ap (λ j. (j, limit)) ((eq_iff k key).0 q)), e)
      | inr q ↦ later_limit k limit limits key (get_limit limits key (ground arith))
    ]
    | inr e ↦ later_limit k limit limits key (get_limit limits key (ground arith))
  ]

  pub has_limit :
      (limits : Dict (LimitSpec F)) (key : String)
      → HasLimit limits key
      → is_some (Dict.get key (positive_limits limits)) ≡ true
  unfolding positive_limits Dict.get
  has_limit [] key (limit, m, h) = elim m [ ]
  has_limit ((k, l) ∷ limits) key (limit, inl e, h) =
      ground (arith, eq_iff k key, ap (λ x. x.0) e, ap (λ x. p.lt (p.dec 0 0) x.1.value) e)
  has_limit ((k, l) ∷ limits) key (limit, inr m, h) =
      ground (arith, has_limit limits key (limit, m, h))

  HasLimit-missing_keys :
      (limits : Dict (LimitSpec F)) (wanted : List String)
      → missing_keys (positive_limits limits) wanted ≡ []
      → All (HasLimit limits) wanted
  unfolding missing_keys
  HasLimit-missing_keys limits [] h = tt
  HasLimit-missing_keys limits (key ∷ wanted) h =
      elim (Bool-cases (is_some (Dict.get key (positive_limits limits)))) [
        | inl e ↦ (get_limit limits key e, HasLimit-missing_keys limits wanted (ground arith))
        | inr e ↦ absurd (
            cons_not_nil {x = key} {xs = missing_keys (positive_limits limits) wanted}
              (ground arith))
      ]

  missing_keys-HasLimit :
      (limits : Dict (LimitSpec F)) (wanted : List String)
      → All (HasLimit limits) wanted
      → missing_keys (positive_limits limits) wanted ≡ []
  unfolding missing_keys
  missing_keys-HasLimit limits [] h = refl
  missing_keys-HasLimit limits (key ∷ wanted) h =
      ground (arith, has_limit limits key h.0, missing_keys-HasLimit limits wanted h.1)

  pub some_limit :
      (limits : Dict (LimitSpec F))
      → is_empty (positive_limits limits) ≡ false
      → (key : String) × HasLimit limits key
  unfolding positive_limits
  some_limit [] h = cc
  some_limit ((k, l) ∷ limits) h = elim (Bool-cases (p.lt (p.dec 0 0) l.value)) [
    | inl e ↦ (k, (l, inl refl, e))
    | inr e ↦
        let (key, found) = some_limit limits (ground arith) in
        (key, later_limit k l limits key found)
  ]

  pub not_empty :
      (key : String) (limits : Dict F)
      → is_some (Dict.get key limits) ≡ true
      → is_empty limits ≡ false
  unfolding Dict.get
  not_empty key [] h = cc
  not_empty key (x ∷ limits) h = refl

  pub IsBounded-required_errors :
      (name : String) (wanted : List String) (limits : Dict (LimitSpec F))
      → required_errors name wanted (positive_limits limits) ≡ []
      → IsBounded limits wanted
  unfolding required_errors error_if
  IsBounded-required_errors name [] limits h =
      let (key, found) =
        some_limit limits
          (error_if-nil (is_empty (positive_limits limits)) _ (unfold error_if in h)) in
      any_limit key found
  IsBounded-required_errors name (key ∷ wanted) limits h = all_limits key wanted (
      HasLimit-missing_keys limits (key ∷ wanted)
        (missing_nil name (missing_keys (positive_limits limits) (key ∷ wanted)) h))

  pub required_errors-IsBounded :
      (name : String) (wanted : List String) (limits : Dict (LimitSpec F))
      → IsBounded limits wanted
      → required_errors name wanted (positive_limits limits) ≡ []
  unfolding required_errors error_if missing_error
  required_errors-IsBounded name wanted limits (any_limit key h) =
      rw (not_empty key (positive_limits limits) (has_limit limits key h)) refl
  required_errors-IsBounded name wanted limits (all_limits key keys h) =
      rw (missing_keys-HasLimit limits (key ∷ keys) h) refl

  pub positive_errors : (limits : Dict (LimitSpec F)) → limit_errors (positive_limits limits) ≡ []
  unfolding limit_errors positive_limits error_if
  positive_errors [] = refl
  positive_errors ((key, limit) ∷ limits) =
      ground (arith, positive_errors limits, p.lt_not_le (p.dec 0 0) limit.value)

  pub none_positive :
      (limits : Dict (LimitSpec F))
      → not (is_empty (positive_limits limits)) ≡ false
      → (key : String) → HasLimit limits key
      → ⊥
  none_positive limits h key found =
      false≢true
        (ground (arith, not_empty key (positive_limits limits) (has_limit limits key found)))

  pub none_left :
      (limits : Dict (LimitSpec F))
      → ((key : String) → HasLimit limits key → ⊥)
      → is_empty (positive_limits limits) ≡ true
  none_left limits h = elim (Bool-cases (is_empty (positive_limits limits))) [
    | inl e ↦ e
    | inr e ↦ let (key, found) = some_limit limits e in absurd (h key found)
  ]
