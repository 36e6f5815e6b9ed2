-- ===== src/Jit/Steady.antt =====
-- When the JIT verifier accepts, said without it.
use decision_intelligence_ru.Prelude.{
  All, List, Option, Option-cases, String, [], arith, false, inl, inr, none, or_else, refl, some,
  true, ◌↔◌, ◌∷◌, ◌≡◌,
}
use decision_intelligence_ru.Dict
use decision_intelligence_ru.Dict.{Dict, keys}
use decision_intelligence_ru.Python.{Fields, Prims, Res, Value, eqv, get_field, ok, raise}
use decision_intelligence_ru.Models.{accept, reject}
use decision_intelligence_ru.Jit.{
  compared_keys, differ, first_drift, key_drift, near, number_or_zero, verify, verify_drift,
}

module _ {F : Type 0} ⦃p : Prims F⦄ where
  -- A value did not drift: without a tolerance it is equal; with one the two are numbers (None
  -- counting as zero) of which the difference is not above it, or one is no number and they are equal.
  pub data IsSteady (snap live : Value F) : Option F → Type 0 where
    same : eqv snap live ≡ true → IsSteady snap live none
    close :
        (t x y : F)
        → number_or_zero snap ≡ ok x
        → number_or_zero live ≡ ok y
        → p.lt t (p.abs (p.sub x y)) ≡ false
        → IsSteady snap live (some t)
    no_number :
        (t : F)
        → ((x y : F) → number_or_zero snap ≡ ok x → number_or_zero live ≡ ok y → ⊥)
        → eqv snap live ≡ true
        → IsSteady snap live (some t)

  differ-none :
      (key how : String) (snap live : Value F)
      → differ key how snap live ≡ none
      → eqv snap live ≡ true
  unfolding differ
  differ-none key how snap live h = ground arith

  near_sound :
      (t : F) (key : String) (snap live : Value F) (a b : Res F)
      → number_or_zero snap ≡ a
      → number_or_zero live ≡ b
      → key_drift (some t) key snap live ≡ none
      → IsSteady snap live (some t)
  unfolding key_drift near differ
  near_sound t key snap live (ok x) (ok y) e f h = close t x y e f (ground arith)
  near_sound t key snap live (ok x) (raise c) e f h = no_number t (λ x' y' a b. cc) (ground arith)
  near_sound t key snap live (raise c) b e f h = no_number t (λ x' y' a b'. cc) (ground arith)

  key_sound :
      (o : Option F) (key : String) (snap live : Value F)
      → key_drift o key snap live ≡ none
      → IsSteady snap live o
  key_sound none key snap live h = same (unfold key_drift in differ-none key " changed" snap live h)
  key_sound (some t) key snap live h =
      near_sound t key snap live (number_or_zero snap) (number_or_zero live) refl refl h

  no_number_complete :
      (t : F) (key : String) (snap live : Value F) (a b : Res F)
      → number_or_zero snap ≡ a
      → number_or_zero live ≡ b
      → ((x y : F) → number_or_zero snap ≡ ok x → number_or_zero live ≡ ok y → ⊥)
      → eqv snap live ≡ true
      → key_drift (some t) key snap live ≡ none
  unfolding key_drift near differ
  no_number_complete t key snap live (ok x) (ok y) e f n h = absurd (n x y e f)
  no_number_complete t key snap live (ok x) (raise c) e f n h = ground arith
  no_number_complete t key snap live (raise c) b e f n h = ground arith

  key_complete :
      (o : Option F) (key : String) (snap live : Value F)
      → IsSteady snap live o
      → key_drift o key snap live ≡ none
  unfolding key_drift near differ
  key_complete o key snap live (same h) = ground arith
  key_complete o key snap live (close t x y e f h) = ground arith
  key_complete o key snap live (no_number t n h) =
      no_number_complete t key snap live (number_or_zero snap) (number_or_zero live) refl refl n h

  -- The key's values in the two states did not drift.
  abbrev pub KeyIsSteady : Dict F → Fields F → Fields F → String → Type 0
  KeyIsSteady tolerance snapshot live key =
      IsSteady (get_field key snapshot) (get_field key live) (Dict.get key tolerance)

  first_sound :
      (tolerance : Dict F) (snapshot live : Fields F) (keys : List String)
      → first_drift tolerance snapshot live keys ≡ none
      → All (KeyIsSteady tolerance snapshot live) keys
  unfolding first_drift
  first_sound tolerance snapshot live [] h = tt
  first_sound tolerance snapshot live (key ∷ keys) h = (
    key_sound (Dict.get key tolerance) key (get_field key snapshot) (get_field key live)
        (ground arith),
    first_sound tolerance snapshot live keys (ground arith),
  )

  first_complete :
      (tolerance : Dict F) (snapshot live : Fields F) (keys : List String)
      → All (KeyIsSteady tolerance snapshot live) keys
      → first_drift tolerance snapshot live keys ≡ none
  unfolding first_drift
  first_complete tolerance snapshot live [] h = refl
  first_complete tolerance snapshot live (key ∷ keys) h =
      rw
        (
          key_complete (Dict.get key tolerance) key (get_field key snapshot) (get_field key live)
              h.0,
          first_drift,
        )
        (first_complete tolerance snapshot live keys h.1)

  drifted :
      (snapshot live : Fields F) (keys : Option (List String)) (tolerance : Option (Dict F))
      (r : String)
      → first_drift (or_else tolerance []) snapshot live (compared_keys keys snapshot) ≡ some r
      → verify snapshot live keys tolerance ≡ (reject, r)
  unfolding verify verify_drift
  drifted snapshot live keys tolerance r e = rw (e, verify, verify_drift) refl

  accept_steady :
      (snapshot live : Fields F) (keys : Option (List String)) (tolerance : Option (Dict F))
      → verify snapshot live keys tolerance ≡ (accept, "no state drift")
      → first_drift (or_else tolerance []) snapshot live (compared_keys keys snapshot) ≡ none
  accept_steady snapshot live keys tolerance h =
      elim (Option-cases
        (first_drift (or_else tolerance []) snapshot live (compared_keys keys snapshot))) [
          | inl e ↦ e
          | inr (r, e) ↦ ground (arith, drifted snapshot live keys tolerance r e)
        ]

  -- The verifier accepts exactly when no compared key drifted: the given keys, or all of the
  -- snapshot's where none or an empty list is given, each within its tolerance, or equal where it has
  -- none.
  pub verify-accept_iff :
      (snapshot live : Fields F) (keys : Option (List String)) (tolerance : Option (Dict F))
      → (verify snapshot live keys tolerance ≡ (accept, "no state drift"))
        ↔ All (KeyIsSteady (or_else tolerance []) snapshot live) (compared_keys keys snapshot)
  unfolding verify verify_drift
  verify-accept_iff snapshot live keys tolerance = (
    λ h.
        first_sound (or_else tolerance []) snapshot live (compared_keys keys snapshot)
          (accept_steady snapshot live keys tolerance h),
    λ h.
        rw
          (
            first_complete (or_else tolerance []) snapshot live (compared_keys keys snapshot) h,
            verify,
            verify_drift,
          )
          refl,
  )
