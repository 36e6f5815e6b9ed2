-- ===== src/Amendments/Envelope.antt =====
-- The signed envelope of an amendable invariant, through the patch that
-- src/dir_core/amendments.py lets in and the range rule of src/dir_core/invariants.py.
use decision_intelligence_ru.Invariants.{evaluate_range_rule, get_proposal_value}
use decision_intelligence_ru.Invariants.Sound.{range_value_sound}
use decision_intelligence_ru.Models.{InvariantSpec, PolicyProposal, Pydantic, dump_spec}
use decision_intelligence_ru.Amendments.{
  allowed_patch_keys, apply_amendment_patch, check_max, check_number, check_shape,
  validate_amendment_patch,
}
use decision_intelligence_ru.Prelude.{
  Bool-cases, Option, String, ap, arith, eq_iff, false, if◌then◌else◌, inl, inr, is_empty, keep,
  mem, none, not, refl, some, sym, true, ◌==◌, ◌∙◌, ◌≡◌,
}
use decision_intelligence_ru.Python.{
  >>?-eq-none, Fields, Prims, Value, end, field, field_keys, find_field, num, ok, set_field,
  to_float, update_fields,
}

module _ {F : Type 0} where
  -- No key of the dict stands twice, as in Python.
  abbrev pub Distinct : Fields F → Type 0
  Distinct end = Unit
  Distinct (field k v fs) = (find_field k fs ≡ none) × Distinct fs

  pub find-set_field :
      (k j : String) (v : Value F) (fs : Fields F)
      → find_field j (set_field k v fs) ≡ (if k == j then some v else find_field j fs)
  unfolding find_field set_field
  find-set_field k j v end = refl
  find-set_field k j v (field i w fs) =
      ground (arith, eq_iff k j, eq_iff i k, eq_iff i j, find-set_field k j v fs)

  abbrev pub first_some : Option (Value F) → Option (Value F) → Option (Value F)
  first_some none o = o
  first_some (some v) o = some v

  pub find-update_fields :
      (j : String) (d fs : Fields F)
      → Distinct fs
      → find_field j (update_fields d fs) ≡ first_some (find_field j fs) (find_field j d)
  unfolding update_fields
  find-update_fields j d end h = unfold find_field in refl
  find-update_fields j d (field k v fs) h =
      find-update_fields j (set_field k v d) fs h.1
      ∙ unfold find_field in ground (arith, find-set_field k j v d, eq_iff k j, h.0)

  field_not_patched :
      (fs : Fields F)
      → is_empty (keep (λ k. not (mem k allowed_patch_keys)) (field_keys fs)) ≡ true
      → find_field "field" fs ≡ none
  unfolding find_field keep mem
  field_not_patched end h = refl
  field_not_patched (field k v fs) h = elim (Bool-cases (k == "field")) [
    | inl e ↦ let h' = rw ((eq_iff k "field").0 e) at h in cc (h')
    | inr e ↦ ground (arith, field_not_patched fs)
  ]

module _ {F : Type 0} ⦃p : Prims F⦄ ⦃y : Pydantic F⦄ where
  amended :
      (rule rule' : InvariantSpec F) (patch : Fields F) (x : F)
      → Distinct patch
      → find_field "max" patch ≡ some (num x)
      → find_field "field" patch ≡ none
      → apply_amendment_patch rule patch ≡ ok rule'
      → (rule'.max ≡ some x) × (rule'.field ≡ rule.field)
  unfolding apply_amendment_patch
  amended rule rule' patch x d m f e =
      let fs = update_fields (dump_spec rule) patch in
      (
        y.spec_max fs rule' x e (
            find-update_fields "max" (dump_spec rule) patch d
            ∙ ap (λ o. first_some o (find_field "max" (dump_spec rule))) m),
        y.spec_field fs rule' rule.field e (
            find-update_fields "field" (dump_spec rule) patch d
            ∙ ap (λ o. first_some o (find_field "field" (dump_spec rule))) f
            ∙ unfold dump_spec find_field in refl),
      )

  accepted_shape :
      (rule : InvariantSpec F) (patch : Fields F)
      → check_shape rule patch ≡ none
      → find_field "field" patch ≡ none
  unfolding check_shape
  accepted_shape rule patch h = field_not_patched patch (ground arith)

  accepted_max :
      (rule : InvariantSpec F) (patch : Fields F) (x c : F)
      → validate_amendment_patch rule patch ≡ ok none
      → find_field "max" patch ≡ some (num x)
      → rule.max_ceiling ≡ some c
      → (check_shape rule patch ≡ none) × (p.lt c x ≡ false)
  unfolding validate_amendment_patch
  accepted_max rule patch x c h m e =
      let (shape, rest) = >>?-eq-none (ok (check_shape rule patch)) _ h in
      let (top, rest') =
        >>?-eq-none (check_number (check_max rule) (find_field "max" patch)) _ rest in
      (ground arith, max_test (rw m at top))
    where
      max_test : check_number (check_max rule) (some (num x)) ≡ ok none → p.lt c x ≡ false
      max_test q = unfold check_number check_max to_float in ground arith

  -- Where the patch of a maximum was validated against the signed rule, the new maximum is a number
  -- and not a NaN, and the rule states a ceiling, every proposal that the amended rule lets through
  -- has a value that the ceiling does not order away.
  pub amended-ceiling :
      (rule rule' : InvariantSpec F) (patch : Fields F) (proposal : PolicyProposal F) (x c v : F)
      → Distinct patch
      → validate_amendment_patch rule patch ≡ ok none
      → apply_amendment_patch rule patch ≡ ok rule'
      → find_field "max" patch ≡ some (num x)
      → p.eq x x ≡ true
      → rule.max_ceiling ≡ some c
      → evaluate_range_rule rule' proposal ≡ none
      → to_float (get_proposal_value proposal rule.field) ≡ ok v
      → p.lt c v ≡ false
  unfolding evaluate_range_rule
  amended-ceiling rule rule' patch proposal x c v d valid applied m nan ceiling passes e =
      let (shape, below_ceiling) = accepted_max rule patch x c valid m ceiling in
      let (top, same) = amended rule rule' patch x d m (accepted_shape rule patch shape) applied in
      let in_range = range_value_sound rule' (get_proposal_value proposal rule'.field) passes in
      let same_value : ok v ≡ ok in_range.actual =
        sym e ∙ ap (λ f. to_float (get_proposal_value proposal f)) (sym same) ∙ in_range.numeric in
      elim (Bool-cases (p.lt c v)) [
        | inr low ↦ low
        | inl high ↦ elim (p.lt_between c x v nan high) [
          | inl a ↦ cc
          | inr b ↦ cc (in_range.under_max x top)
        ]
      ]
