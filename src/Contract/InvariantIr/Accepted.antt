-- ===== src/Contract/InvariantIr/Accepted.antt =====
-- What the invariants of a contract that passes the checks are like.
use decision_intelligence_ru.InvariantCompile.{compile_authority_invariants}
use decision_intelligence_ru.Contract.Bootstrap.{error_if}
use decision_intelligence_ru.Contract.Errors.{both_nil}
use decision_intelligence_ru.Prelude.{
  All, Bool, Bool-cases, List, String, [], all, any, arith, eq_iff, false, false≢true, inl, inr,
  is_empty, is_some, not, refl, sym, true, ◌&&◌, ◌++◌, ◌==◌, ◌||◌, ◌∙◌, ◌∷◌, ◌≡◌, ◌≢◌, ◌⊎◌,
}
use decision_intelligence_ru.Python.{>>=-eq-ok, Exc, Fields, Prims, Res, Value, ok, raise, un_ok}
use decision_intelligence_ru.Models.{InvariantSpec, Pydantic}
use decision_intelligence_ru.Contract.InvariantIr.{
  all_spec_errors, ir_errors, is_text, no_path, set_errors, spec_errors,
  validate_authority_invariant_conflicts, validate_contract_invariant_ir,
}

other_text : {s t : String} → (s == t) ≡ false → s ≢ t
other_text {s = s} {t = t} h e = false≢true (sym h ∙ (eq_iff s t).1 e)

four_false :
    (a b c d : Bool) (k l m n : String)
    → error_if a k ++ error_if b l ++ error_if c m ++ error_if d n ≡ []
    → (a ≡ false) × (b ≡ false) × (c ≡ false) × (d ≡ false)
unfolding error_if
four_false true b c d k l m n h = cc
four_false false true c d k l m n h = cc
four_false false false true d k l m n h = cc
four_false false false false true k l m n h = cc
four_false false false false false k l m n h = (refl, refl, refl, refl)

module _ {F : Type 0} ⦃p : Prims F⦄ where
  -- A rule that the kernel can evaluate as it is meant: a range has a bound, a set has either allowed
  -- or denied values, by substring only denied texts, a state match has a path.
  pub data IsWellFormed (spec : InvariantSpec F) : Type 0 where
    range_rule :
        spec.type ≡ "range" → is_some spec.max || is_some spec.min ≡ true → IsWellFormed spec
    set_rule :
        spec.type ≡ "set"
        → is_empty spec.allowed ≡ not (is_empty spec.denied)
        → (spec.match ≡ "substring"
            → (is_empty spec.allowed ≡ true) × (all is_text spec.denied ≡ true))
        → IsWellFormed spec
    match_rule : spec.type ≡ "state_match" → no_path spec.snapshot_path ≡ false → IsWellFormed spec

  -- The rule is of a type that the kernel evaluates, one of the field's Literal.
  abbrev pub HasKnownType : InvariantSpec F → Type 0
  HasKnownType spec = (spec.type ≡ "range") ⊎ ((spec.type ≡ "set") ⊎ (spec.type ≡ "state_match"))

  all_texts :
      (values : List (Value F))
      → any (λ v. not (is_text v)) values ≡ false
      → all is_text values ≡ true
  all_texts [] h = refl
  all_texts (v ∷ values) h = ground (arith, all_texts values)

  set_sound :
      (spec : InvariantSpec F) → spec.type ≡ "set" → set_errors spec ≡ [] → IsWellFormed spec
  unfolding set_errors
  set_sound spec e h =
      let (empty, mode, sub, texts) =
        four_false (is_empty spec.allowed && is_empty spec.denied)
          (not (is_empty spec.allowed) && not (is_empty spec.denied))
          (spec.match == "substring" && not (is_empty spec.allowed))
          (spec.match == "substring" && any (λ v. not (is_text v)) spec.denied) _ _ _ _ h in
      set_rule e (ground arith) (λ m. (
        ground (arith, (eq_iff spec.match "substring").1 m),
        all_texts spec.denied (ground (arith, (eq_iff spec.match "substring").1 m)),
      ))

  range_errors :
      (spec : InvariantSpec F)
      → (spec.type == "range") ≡ true
      → spec_errors spec ≡ []
      → is_some spec.max || is_some spec.min ≡ true
  unfolding spec_errors error_if
  range_errors spec e h = ground arith

  path_errors :
      (spec : InvariantSpec F)
      → (spec.type == "range") ≡ false
      → (spec.type == "set") ≡ false
      → (spec.type == "state_match") ≡ true
      → spec_errors spec ≡ []
      → no_path spec.snapshot_path ≡ false
  unfolding spec_errors error_if
  path_errors spec e f g h = ground arith

  set_part :
      (spec : InvariantSpec F)
      → (spec.type == "range") ≡ false
      → (spec.type == "set") ≡ true
      → spec_errors spec ≡ []
      → set_errors spec ≡ []
  unfolding spec_errors
  set_part spec e f h = ground arith

  spec_sound :
      (spec : InvariantSpec F) → HasKnownType spec → spec_errors spec ≡ [] → IsWellFormed spec
  spec_sound spec k h = elim (Bool-cases (spec.type == "range")) [
    | inl e ↦ range_rule ((eq_iff spec.type "range").0 e) (range_errors spec e h)
    | inr e ↦ elim (Bool-cases (spec.type == "set")) [
      | inl f ↦ set_sound spec ((eq_iff spec.type "set").0 f) (set_part spec e f h)
      | inr f ↦ elim k [
        | inl r ↦ absurd (other_text e r)
        | inr (inl r) ↦ absurd (other_text f r)
        | inr (inr r) ↦ match_rule r (path_errors spec e f ((eq_iff spec.type "state_match").1 r) h)
      ]
    ]
  ]

  IsWellFormed-all_spec_errors :
      (specs : List (InvariantSpec F))
      → all_spec_errors specs ≡ []
      → All (λ s. HasKnownType s → IsWellFormed s) specs
  unfolding all_spec_errors
  IsWellFormed-all_spec_errors [] h = tt
  IsWellFormed-all_spec_errors (spec ∷ specs) h =
      let (first, rest) = both_nil (spec_errors spec) (all_spec_errors specs) h in
      (λ k. spec_sound spec k first, IsWellFormed-all_spec_errors specs rest)

  ir_sound :
      (exc_text : Exc → String) (contract : Fields F) (m : Res (List (InvariantSpec F)))
      → ir_errors exc_text contract m ≡ ok []
      → (compiled : List (InvariantSpec F)) × (m ≡ ok compiled)
        × All (λ s. HasKnownType s → IsWellFormed s) compiled
  unfolding ir_errors
  ir_sound exc_text contract (raise exc) h = cc
  ir_sound exc_text contract (ok compiled) h =
      let (found, e, q) =
        >>=-eq-ok (validate_authority_invariant_conflicts contract)
          (λ found. ok (all_spec_errors compiled ++ found)) h in
      let (specs, none_found) = both_nil (all_spec_errors compiled) found (un_ok q) in
      (compiled, refl, IsWellFormed-all_spec_errors compiled specs)

  -- A contract of which the invariants pass the checks compiles, and each of its compiled rules of
  -- the types range, set and state_match is one that the kernel can evaluate as it is meant.
  pub validate_ir-IsWellFormed :
      ⦃y : Pydantic F⦄
      → (exc_text : Exc → String) (contract : Fields F)
      → validate_contract_invariant_ir exc_text contract ≡ ok []
      → (compiled : List (InvariantSpec F)) × (compile_authority_invariants contract ≡ ok compiled)
        × All (λ s. HasKnownType s → IsWellFormed s) compiled
  unfolding validate_contract_invariant_ir
  validate_ir-IsWellFormed exc_text contract h =
      ir_sound exc_text contract (compile_authority_invariants contract) h
