-- ===== src/Invariants/Unordered.antt =====
-- A number that compares with nothing, a NaN, in `evaluate_range_rule` of
-- src/dir_core/invariants.py.
use decision_intelligence_ru.Prelude.{Option, arith, false, none, refl, some, ◌≡◌}
use decision_intelligence_ru.Python.{Prims, is_null, ok, to_float}
use decision_intelligence_ru.Models.{InvariantSpec, PolicyProposal}
use decision_intelligence_ru.Invariants.{
  above, below, check_range, evaluate_range_rule, get_proposal_value, range_value,
}

module _ {F : Type 0} ⦃p : Prims F⦄ where
  -- No comparison with the number holds.
  pub record IsUnordered (x : F) : Type 0 where
    pub not_below : (m : F) → p.lt x m ≡ false
    pub not_above : (m : F) → p.lt m x ≡ false

  below-unordered : (o : Option F) (x : F) → IsUnordered x → below o x ≡ false
  below-unordered none x h = refl
  below-unordered (some m) x h = h.not_below m

  above-unordered : (o : Option F) (x : F) → IsUnordered x → above o x ≡ false
  above-unordered none x h = refl
  above-unordered (some m) x h = h.not_above m

  -- A proposal whose value at the field of a range rule converts to a NaN passes the rule, whatever
  -- minimum and maximum the rule has.
  pub range-unordered :
      (rule : InvariantSpec F) (proposal : PolicyProposal F) (x : F)
      → is_null (get_proposal_value proposal rule.field) ≡ false
      → to_float (get_proposal_value proposal rule.field) ≡ ok x
      → IsUnordered x
      → evaluate_range_rule rule proposal ≡ none
  unfolding evaluate_range_rule range_value check_range
  range-unordered rule proposal x n e h =
      rw (n, e) (ground (arith, below-unordered rule.min x h, above-unordered rule.max x h))
