-- ===== src/Amendments/Unbounded.antt =====
-- A patch of src/dir_core/amendments.py that takes the maximum of a rule away.
use decision_intelligence_ru.Prelude.{
  Option, String, ap, false, none, refl, some, sym, true, ◌∙◌, ◌≡◌,
}
use decision_intelligence_ru.Python.{
  Fields, Prims, Value, bool, datetime, dict, end, field, find_field, is_null, list, null, num, ok,
  str, to_float, update_fields,
}
use decision_intelligence_ru.Models.{InvariantSpec, PolicyProposal, Pydantic, dump_spec}
use decision_intelligence_ru.Invariants.{evaluate_range_rule, get_proposal_value}
use decision_intelligence_ru.Invariants.Sound.{range_value_complete}
use decision_intelligence_ru.Amendments.{
  apply_amendment_patch, check_number, check_shape, check_ttl, validate_amendment_patch,
}
use decision_intelligence_ru.Amendments.Envelope.{find-update_fields}

module _ {F : Type 0} where
  -- `{"max": None}`
  abbrev pub no_maximum : Fields F
  no_maximum = field "max" null end

module _ {F : Type 0} ⦃p : Prims F⦄ ⦃y : Pydantic F⦄ where
  lets_in :
      (rule : InvariantSpec F)
      → rule.runtime_amendable ≡ true
      → check_ttl rule ≡ none
      → validate_amendment_patch rule no_maximum ≡ ok none
  unfolding validate_amendment_patch check_ttl check_shape check_number find_field
      decision_intelligence_ru.Prelude.keep decision_intelligence_ru.Prelude.mem
      decision_intelligence_ru.Amendments.check_allowed
  lets_in rule h k = rw (h, k) refl

  lifted :
      (rule rule' : InvariantSpec F)
      → apply_amendment_patch rule no_maximum ≡ ok rule'
      → (rule'.max ≡ none) × (rule'.field ≡ rule.field)
  unfolding apply_amendment_patch
  lifted rule rule' e =
      let fs = update_fields (dump_spec rule) no_maximum in
      (
        y.spec_no_max fs rule' e (
            find-update_fields "max" (dump_spec rule) no_maximum (unfold find_field in (refl, tt))
            ∙ unfold find_field in refl),
        y.spec_field fs rule' rule.field e (
            find-update_fields "field" (dump_spec rule) no_maximum (unfold find_field in (refl, tt))
            ∙ unfold dump_spec find_field in refl),
      )

  number_present : (w : Value F) (v : F) → to_float w ≡ ok v → is_null w ≡ false
  unfolding to_float
  number_present null v h = cc
  number_present (bool b) v h = refl
  number_present (num x) v h = refl
  number_present (str s) v h = refl
  number_present (datetime t) v h = refl
  number_present (list vs) v h = refl
  number_present (dict fs) v h = refl

  -- A patch that sets only the maximum, to None, is accepted for every amendable rule whose TTL, if
  -- it has one, is positive, whatever ceiling the rule states; and where the patched rule is valid,
  -- it lets through every numeric value that its minimum, if it has one, does not order away.
  pub ceiling-lifted :
      (rule rule' : InvariantSpec F) (proposal : PolicyProposal F) (v : F)
      → rule.runtime_amendable ≡ true
      → check_ttl rule ≡ none
      → apply_amendment_patch rule no_maximum ≡ ok rule'
      → to_float (get_proposal_value proposal rule.field) ≡ ok v
      → ((m : F) → rule'.min ≡ some m → p.lt v m ≡ false)
      → (validate_amendment_patch rule no_maximum ≡ ok none)
        × (evaluate_range_rule rule' proposal ≡ none)
  unfolding evaluate_range_rule
  ceiling-lifted rule rule' proposal v h k e n low =
      let (unbounded, same) = lifted rule rule' e in
      let number = ap (λ f. to_float (get_proposal_value proposal f)) same ∙ n in
      (
        lets_in rule h k,
        range_value_complete rule' (get_proposal_value proposal rule'.field) (record {
          present = number_present (get_proposal_value proposal rule'.field) v number;
          actual = v;
          numeric = number;
          over_min = low;
          under_max = λ m q. cc (unbounded, q);
        }),
      )
