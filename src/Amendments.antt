-- ===== src/Amendments.antt =====
-- src/dir_core/amendments.py: human-gated patches of the invariants that a contract lets be amended.
-- A `datetime` is UTC microseconds.
pub mod Envelope
pub mod Unbounded
pub mod Effective
use decision_intelligence_ru.Prelude.{
  Bool, List, Option, String, [], all, false, if◌then◌else◌, is_empty, keep, leb_ℤ, mem, neg_part,
  none, not, pos, pos_part, some, sub_ℕ, true, ℤ, ◌&&◌, ◌*◌, ◌+ℤ◌, ◌==◌, ◌∷◌,
}
use decision_intelligence_ru.Dict
use decision_intelligence_ru.Dict.{Dict}
use decision_intelligence_ru.Python.{
  Fields, Prims, Res, Value, dict, field_keys, find_field, is_null, list, member, ok, raise,
  to_float, to_list, type_error, update_fields, ◌>>=◌, ◌>>?◌,
}
use decision_intelligence_ru.Python.Text.{sort_texts, ◌+s◌}
use decision_intelligence_ru.Models.{
  ContractParameterAmendment, InvariantSpec, Pydantic, RuntimeContractProjection, dump_spec,
  of_texts,
}
use decision_intelligence_ru.InvariantCompile.{invariants_to_transaction_limits}

abbrev pub allowed_patch_keys : List String
allowed_patch_keys = "min" ∷ "max" ∷ "allowed" ∷ "drift_envelope_pct" ∷ []

-- whole seconds, in microseconds
abbrev pub seconds : ℤ → ℤ
seconds i = sub_ℕ (pos_part i * 1000000) (neg_part i * 1000000)

-- `expires_at is not None and now >= expires_at`
abbrev pub expired : Option ℤ → ℤ → Bool
expired none now = false
expired (some t) now = leb_ℤ t now

module _ {F : Type 0} ⦃p : Prims F⦄ where
  unfoldable pub apply_amendment_patch :
      ⦃y : Pydantic F⦄ → InvariantSpec F → Fields F → Res (InvariantSpec F)
  apply_amendment_patch ⦃y⦄ invariant patch =
      y.validate_spec (update_fields (dump_spec invariant) patch)

  -- `x > float(invariant.max_ceiling)`
  abbrev pub over : Option F → F → Bool
  over none x = false
  over (some c) x = p.lt c x

  -- `x < float(invariant.min_floor)`
  abbrev pub under : Option F → F → Bool
  under none x = false
  under (some f) x = p.lt x f

  -- the two tests on a new maximum
  unfoldable pub check_max : InvariantSpec F → F → Option String
  check_max invariant x =
      if over invariant.max_ceiling x
      then some "PATCH_EXCEEDS_MAX_CEILING"
      else if under invariant.min_floor x
      then some "PATCH_BELOW_MIN_FLOOR"
      else none

  -- the two tests on a new minimum
  unfoldable pub check_min : InvariantSpec F → F → Option String
  check_min invariant x =
      if under invariant.min_floor x
      then some "PATCH_BELOW_MIN_FLOOR"
      else if over invariant.max_ceiling x
      then some "PATCH_EXCEEDS_MAX_CEILING"
      else none

  unfoldable pub check_drift : InvariantSpec F → F → Option String
  check_drift invariant x = if p.lt x (p.dec 0 0) then some "DRIFT_ENVELOPE_NEGATIVE" else none

  -- `if key in patch and patch[key] is not None: x = float(patch[key]); ...`
  unfoldable pub check_number : (F → Option String) → Option (Value F) → Res (Option String)
  check_number test none = ok none
  check_number test (some v) = if is_null v then ok none else (to_float v >>= λ x. ok (test x))

  -- a set of values: unhashable members raise
  unfoldable pub hashable : List (Value F) → Res (List (Value F))
  hashable [] = ok []
  hashable (list vs ∷ rest) = raise type_error
  hashable (dict fs ∷ rest) = raise type_error
  hashable (v ∷ rest) = do hs ← hashable rest; ok (v ∷ hs)

  abbrev pub is_list : Value F → Bool
  is_list (list vs) = true
  is_list _ = false

  -- the tests on `set(invariant.allowed)` and the new list
  check_subset : InvariantSpec F → List (Value F) → List (Value F) → Res (Option String)
  check_subset invariant new_allowed [] =
      ok (if invariant.type == "set" then some "ALLOWED_PATCH_REQUIRES_SIGNED_BASE" else none)
  check_subset invariant new_allowed (s ∷ signed) = do
    new_set ← hashable new_allowed
    ok (
        if all (λ v. member v (s ∷ signed)) new_set
        then none
        else some "ALLOWED_PATCH_EXPANSION_FORBIDDEN")

  unfoldable pub check_allowed : InvariantSpec F → Option (Value F) → Res (Option String)
  unfolding check_subset
  check_allowed invariant none = ok none
  check_allowed invariant (some v) = do
    new_allowed ← to_list v
    if not (is_list v)
        then ok (some "ALLOWED_PATCH_MUST_BE_LIST")
        else do signed ← hashable invariant.allowed; check_subset invariant new_allowed signed

  unfoldable pub check_ttl : InvariantSpec F → Option String
  check_ttl invariant = elim invariant.amend_ttl_seconds [
    | none ↦ none
    | some ttl ↦ if leb_ℤ ttl (pos 0) then some "INVALID_AMEND_TTL" else none
  ]

  -- the guards before the values are looked at
  unfoldable pub check_shape : InvariantSpec F → Fields F → Option String
  check_shape invariant patch =
      let invalid_keys = keep (λ k. not (mem k allowed_patch_keys)) (field_keys patch) in
      if not invariant.runtime_amendable
      then some "INVARIANT_NOT_AMENDABLE"
      else if is_empty (field_keys patch)
      then some "EMPTY_PATCH"
      else if not (is_empty invalid_keys)
      then some ("DISALLOWED_PATCH_KEYS: " +s p.show (of_texts (sort_texts invalid_keys)))
      else none

  -- `none` accepts the patch
  unfoldable pub validate_amendment_patch : InvariantSpec F → Fields F → Res (Option String)
  validate_amendment_patch invariant patch =
      ok (check_shape invariant patch)
      >>? check_number (check_max invariant) (find_field "max" patch)
      >>? check_number (check_min invariant) (find_field "min" patch)
      >>? check_allowed invariant (find_field "allowed" patch)
      >>? check_number (check_drift invariant) (find_field "drift_envelope_pct" patch)
      >>? ok (check_ttl invariant)

  -- `amend_ttl_seconds` is `None` for the default spec of an amendment with no base
  unfoldable pub resolve_expires_at : ContractParameterAmendment F → Option ℤ → Option ℤ
  resolve_expires_at amendment ttl = elim amendment.expires_at [
    | some t ↦ some t
    | none ↦ elim ttl [
      | none ↦ none
      | some s ↦
          if leb_ℤ s (pos 0) && leb_ℤ (pos 0) s
          then none
          else some (amendment.created_at +ℤ seconds s)
    ]
  ]

  -- the loop body of `effective_invariants`, with the base found for the amendment
  unfoldable pub amend :
      ⦃y : Pydantic F⦄
      → ℤ
      → ContractParameterAmendment F
      → Option (InvariantSpec F)
      → Dict (InvariantSpec F)
      → Res (Dict (InvariantSpec F))
  amend now amendment none by_id = ok by_id
  amend now amendment (some base) by_id =
      if expired (resolve_expires_at amendment base.amend_ttl_seconds) now then ok by_id else do
        patched ← apply_amendment_patch base amendment.patch
        ok (Dict.set amendment.invariant_id patched by_id)

  unfoldable pub amend_all :
      ⦃y : Pydantic F⦄
      → ℤ
      → List (ContractParameterAmendment F)
      → Dict (InvariantSpec F)
      → Res (Dict (InvariantSpec F))
  amend_all now [] by_id = ok by_id
  amend_all now (a ∷ amendments) by_id = do
    next ← amend now a (Dict.get a.invariant_id by_id) by_id
    amend_all now amendments next

  -- `{spec.id: spec for spec in invariants}`
  unfoldable pub index_by_id :
      List (InvariantSpec F) → Dict (InvariantSpec F) → Dict (InvariantSpec F)
  index_by_id [] by_id = by_id
  index_by_id (spec ∷ specs) by_id = index_by_id specs (Dict.set spec.id spec by_id)

  unfoldable pub effective_invariants :
      ⦃y : Pydantic F⦄ → RuntimeContractProjection F → ℤ → Res (List (InvariantSpec F))
  effective_invariants projection now = do
    by_id ← amend_all now projection.parameter_amendments (index_by_id projection.invariants [])
    ok (Dict.values by_id)

  unfoldable pub projection_with_effective_invariants :
      ⦃y : Pydantic F⦄ → RuntimeContractProjection F → ℤ → Res (RuntimeContractProjection F)
  projection_with_effective_invariants projection now = do
    effective ← effective_invariants projection now
    ok (record projection {
      invariants = effective;
      transaction_limits = invariants_to_transaction_limits effective;
    })
