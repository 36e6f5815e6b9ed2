-- ===== src/Tests/Rules.antt =====
-- The theorems on rules, amendments and compiled contracts at concrete data.
use decision_intelligence_ru.Amendments.Unbounded.{ceiling-lifted, no_maximum}
use decision_intelligence_ru.Amendments.Envelope.{amended-ceiling}
use decision_intelligence_ru.Amendments.Effective.{unique_ids, ids, ids-effective_invariants}
use decision_intelligence_ru.InvariantCompile.{
  authority_of, compile_authority_invariants, compile_sugar_invariants, conflicts, limit_spec,
  validate_explicit,
}
use decision_intelligence_ru.InvariantCompile.Merge.{
  IsCovered, explicit-compile_authority_invariants,
}
use decision_intelligence_ru.Prelude.{
  All, Has, List, [], false, ltb_ℤ, none, pos, refl, some, subst, Option, ◌++◌, ◌↔◌, ◌∷◌, ◌≡◌,
}
use decision_intelligence_ru.Python.{
  Fields, Value, dict, dict_or_empty, end, find_field, get_field, is_null, list_or_empty, num, ok,
  str, to_float,
}
use decision_intelligence_ru.Python.Sample.{Sample, cents, nan, sample, sample_lt}
use decision_intelligence_ru.Models.{InvariantSpec, fields_of, of_list}
use decision_intelligence_ru.Invariants.{
  evaluate_invariants, evaluate_range_rule, get_proposal_value,
}
use decision_intelligence_ru.Invariants.Legal.{AllHold, evaluate_invariants-eq-nil_iff}
use decision_intelligence_ru.Invariants.Unordered.{IsUnordered, range-unordered}
use decision_intelligence_ru.Amendments.{
  apply_amendment_patch, effective_invariants, validate_amendment_patch,
}
use decision_intelligence_ru.Tests.{
  limit, order, patch_150, projection_with, pydantic, raise_limit, read_spec,
}

evaluate_invariants-eq-nil_iff_example :
    (evaluate_invariants (order (cents (pos 5000))) (projection_with []) end ≡ [])
    ↔ AllHold (order (cents (pos 5000))) end (limit ∷ [])
evaluate_invariants-eq-nil_iff_example =
    evaluate_invariants-eq-nil_iff (order (cents (pos 5000))) (projection_with []) end

nan_compares_nothing : IsUnordered nan
nan_compares_nothing = record { not_below = λ m. refl; not_above = λ m. not_above m }
  where
    not_above : (m : Sample) → sample_lt m nan ≡ false
    not_above nan = refl
    not_above (cents a) = refl

order_nan_present : is_null (get_proposal_value (order nan) limit.field) ≡ false
unfolding get_proposal_value decision_intelligence_ru.Invariants.nested_attribute
    decision_intelligence_ru.Python.Text.split_dots decision_intelligence_ru.Invariants.nested_from
    decision_intelligence_ru.Invariants.nested_step decision_intelligence_ru.Invariants.attribute
    get_field
order_nan_present = refl

order_nan : to_float (get_proposal_value (order nan) limit.field) ≡ ok nan
unfolding get_proposal_value to_float decision_intelligence_ru.Invariants.nested_attribute
    decision_intelligence_ru.Python.Text.split_dots decision_intelligence_ru.Invariants.nested_from
    decision_intelligence_ru.Invariants.nested_step decision_intelligence_ru.Invariants.attribute
    get_field
order_nan = refl

range-unordered_example : evaluate_range_rule limit (order nan) ≡ none
range-unordered_example =
    range-unordered limit (order nan) nan order_nan_present order_nan nan_compares_nothing

-- the rule with the maximum patched
abbrev patched_limit : InvariantSpec Sample
patched_limit = record limit { match = "exact"; max = some (cents (pos 15000)) }

limit_patched : apply_amendment_patch limit patch_150 ≡ ok patched_limit
unfolding apply_amendment_patch find_field decision_intelligence_ru.Python.update_fields
    decision_intelligence_ru.Models.dump_spec
limit_patched = refl

patch_accepted : validate_amendment_patch limit patch_150 ≡ ok none
unfolding validate_amendment_patch decision_intelligence_ru.Amendments.check_shape
    decision_intelligence_ru.Prelude.keep decision_intelligence_ru.Prelude.mem
    decision_intelligence_ru.Amendments.check_number find_field to_float
    decision_intelligence_ru.Amendments.check_max decision_intelligence_ru.Amendments.check_allowed
    decision_intelligence_ru.Amendments.check_ttl
patch_accepted = refl

order_passes : evaluate_range_rule patched_limit (order (cents (pos 12000))) ≡ none
unfolding evaluate_range_rule decision_intelligence_ru.Invariants.range_value get_proposal_value
    decision_intelligence_ru.Invariants.nested_attribute
    decision_intelligence_ru.Python.Text.split_dots decision_intelligence_ru.Invariants.nested_from
    decision_intelligence_ru.Invariants.nested_step decision_intelligence_ru.Invariants.attribute
    get_field to_float decision_intelligence_ru.Invariants.check_range
order_passes = refl

order_value :
    to_float (get_proposal_value (order (cents (pos 12000))) limit.field) ≡ ok (cents (pos 12000))
unfolding to_float get_proposal_value decision_intelligence_ru.Invariants.nested_attribute
    decision_intelligence_ru.Python.Text.split_dots decision_intelligence_ru.Invariants.nested_from
    decision_intelligence_ru.Invariants.nested_step decision_intelligence_ru.Invariants.attribute
    get_field
order_value = refl

patch_found : find_field "max" patch_150 ≡ some (num (cents (pos 15000)))
unfolding find_field
patch_found = refl

amended-ceiling_example : ltb_ℤ (pos 20000) (pos 12000) ≡ false
unfolding find_field
amended-ceiling_example =
    amended-ceiling limit patched_limit patch_150 (order (cents (pos 12000))) (cents (pos 15000))
      (cents (pos 20000)) (cents (pos 12000)) (refl, tt) patch_accepted limit_patched patch_found
      refl refl order_passes order_value

-- the sample limit without its maximum
abbrev unbounded_limit : InvariantSpec Sample
unbounded_limit = record limit { max = none }

limit_unbounded : apply_amendment_patch limit no_maximum ≡ ok unbounded_limit
unfolding apply_amendment_patch find_field decision_intelligence_ru.Python.update_fields
    decision_intelligence_ru.Models.dump_spec
limit_unbounded = refl

abbrev or_zero : Option Sample → Sample
or_zero none = cents (pos 0)
or_zero (some x) = x

no_ttl : decision_intelligence_ru.Amendments.check_ttl limit ≡ none
unfolding decision_intelligence_ru.Amendments.check_ttl
no_ttl = refl

million :
    to_float (get_proposal_value (order (cents (pos 100000000))) limit.field)
    ≡ ok (cents (pos 100000000))
unfolding to_float get_proposal_value decision_intelligence_ru.Invariants.nested_attribute
    decision_intelligence_ru.Python.Text.split_dots decision_intelligence_ru.Invariants.nested_from
    decision_intelligence_ru.Invariants.nested_step decision_intelligence_ru.Invariants.attribute
    get_field
million = refl

above_zero :
    (m : Sample) → some (cents (pos 0)) ≡ some m → sample_lt (cents (pos 100000000)) m ≡ false
above_zero m q = subst (λ o. sample_lt (cents (pos 100000000)) (or_zero o) ≡ false) q refl

-- an order of a million, under a ceiling of 200.00
ceiling-lifted_example :
    (validate_amendment_patch limit no_maximum ≡ ok none)
    × (evaluate_range_rule unbounded_limit (order (cents (pos 100000000))) ≡ none)
ceiling-lifted_example =
    ceiling-lifted limit unbounded_limit (order (cents (pos 100000000))) (cents (pos 100000000))
      refl no_ttl limit_unbounded million above_zero

amended_once :
    effective_invariants (projection_with (raise_limit ∷ [])) (pos 0) ≡ ok (patched_limit ∷ [])
unfolding effective_invariants decision_intelligence_ru.Amendments.amend_all
    decision_intelligence_ru.Amendments.amend decision_intelligence_ru.Dict.get
    decision_intelligence_ru.Amendments.index_by_id decision_intelligence_ru.Dict.set find_field
    decision_intelligence_ru.Amendments.resolve_expires_at apply_amendment_patch
    decision_intelligence_ru.Dict.values decision_intelligence_ru.Python.update_fields
    decision_intelligence_ru.Models.dump_spec
amended_once = refl

no_id : find_field "id" patch_150 ≡ none
unfolding find_field
no_id = refl

ids-effective_invariants_example : ids (patched_limit ∷ []) ≡ unique_ids [] ("INV_LIMIT" ∷ [])
unfolding find_field
ids-effective_invariants_example =
    ids-effective_invariants (projection_with (raise_limit ∷ [])) (pos 0) (patched_limit ∷ [])
      (((refl, tt), no_id), tt) amended_once

-- a contract with an explicit rule on orders, and the limit on them that the rule overrides
abbrev contract : Fields Sample
contract = fields_of (
    (
      "authority",
      dict (
          fields_of (
            (
              "invariants",
              of_list (
                  dict (
                    fields_of (
                      ("id", str "MY_LIMIT")
                      ∷ ("type", str "range")
                      ∷ ("field", str "params.order_value")
                      ∷ []))
                  ∷ []),
            )
            ∷ ("max_order_size", num (cents (pos 10000)))
            ∷ ("max_refund_usd", num (cents (pos 500)))
            ∷ [])),
    )
    ∷ [])

abbrev compiled : List (InvariantSpec Sample)
compiled =
    read_spec (
      fields_of
        (("id", str "MY_LIMIT") ∷ ("type", str "range") ∷ ("field", str "params.order_value") ∷ []))
    ∷ limit_spec "max_refund_usd" (cents (pos 500))
    ∷ []

contract_compiles : compile_authority_invariants contract ≡ ok compiled
unfolding compile_authority_invariants authority_of decision_intelligence_ru.Python.truthy get_field
    decision_intelligence_ru.Python.dict_or_empty list_or_empty
    decision_intelligence_ru.Python.to_list validate_explicit
    decision_intelligence_ru.InvariantCompile.compile_sugar_invariants
    decision_intelligence_ru.InvariantCompile.limits_of
    decision_intelligence_ru.InvariantCompile.merge_explicit decision_intelligence_ru.Prelude.keep
    decision_intelligence_ru.InvariantCompile.add_slippage
    decision_intelligence_ru.InvariantCompile.as_float
    decision_intelligence_ru.InvariantCompile.add_list
    decision_intelligence_ru.InvariantCompile.add_limits
    decision_intelligence_ru.InvariantCompile.max_fields decision_intelligence_ru.Dict.get
    decision_intelligence_ru.InvariantCompile.add_candidate
    decision_intelligence_ru.InvariantCompile.allowed_types_spec conflicts
    decision_intelligence_ru.InvariantCompile.industries_spec
    decision_intelligence_ru.InvariantCompile.instrument_spec
    decision_intelligence_ru.InvariantCompile.limit_field limit_spec
    decision_intelligence_ru.InvariantCompile.not_explicit
    decision_intelligence_ru.InvariantCompile.slippage_spec
    decision_intelligence_ru.Python.Text.remove_first decision_intelligence_ru.Python.characters
    find_field to_float
contract_compiles = refl

explicit-compile_authority_invariants_example :
    (authority conditions : Fields Sample) × (raw : List (Value Sample)) × (explicit sugar
      kept : List (InvariantSpec Sample))
    × (authority_of contract ≡ ok authority)
    × (dict_or_empty (get_field "execution_conditions" contract) ≡ ok conditions)
    × (list_or_empty (get_field "invariants" authority) ≡ ok raw)
    × (validate_explicit raw ≡ ok explicit)
    × (compile_sugar_invariants authority conditions ≡ ok sugar)
    × (compiled ≡ explicit ++ kept)
    × ((s : InvariantSpec Sample) → Has s kept ↔ (Has s sugar × (IsCovered explicit s → ⊥)))
explicit-compile_authority_invariants_example =
    explicit-compile_authority_invariants contract compiled contract_compiles
