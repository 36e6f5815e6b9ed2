-- ===== src/Invariants/Legal.antt =====
-- `evaluate_invariants` of src/dir_core/invariants.py against the demands of the rules.
use decision_intelligence_ru.Prelude.{
  All, Bool-cases, Has, Has-mem, List, Option-cases, [], arith, eq_iff, false, inl, inr, none,
  or_else, refl, some, sym, ◌↔◌, ◌∙◌, ◌∷◌, ◌≡◌, ◌≢◌,
}
use decision_intelligence_ru.Python.{Fields, Prims}
use decision_intelligence_ru.Models.{InvariantSpec, PolicyProposal, RuntimeContractProjection}
use decision_intelligence_ru.Invariants.{
  InvariantEvaluationFailure, evaluate_all, evaluate_invariants, evaluate_range_rule, evaluate_rule,
  evaluate_set_rule, evaluate_state_match_rule, get_proposal_value, live_value, match_values, skips,
}
use decision_intelligence_ru.Invariants.Sound.{
  Applies, Holds, match_values_complete, match_values_sound, range_value_complete,
  range_value_sound, set_value_complete, set_value_sound, skips-false,
}

module _ {F : Type 0} ⦃p : Prims F⦄ where
  Applies-skips :
      (rule : InvariantSpec F) (proposal : PolicyProposal F)
      → Applies rule proposal
      → skips rule proposal ≡ false
  unfolding skips
  Applies-skips rule proposal (inl e) = rw (e, skips) refl
  Applies-skips rule proposal (inr m) =
      ground (arith, Has-mem proposal.policy_kind rule.applies_to_policy_kinds m)

  module _ (rule : InvariantSpec F) (proposal : PolicyProposal F) (context : Fields F) where
    evaluate_range :
        rule.type ≡ "range"
        → evaluate_rule rule proposal context ≡ evaluate_range_rule rule proposal
    unfolding evaluate_rule
    evaluate_range e = rw e refl

    evaluate_set :
        rule.type ≡ "set" → evaluate_rule rule proposal context ≡ evaluate_set_rule rule proposal
    unfolding evaluate_rule
    evaluate_set e = rw e refl

    evaluate_state_match :
        rule.type ≡ "state_match"
        → evaluate_rule rule proposal context ≡ evaluate_state_match_rule rule proposal context
    unfolding evaluate_rule
    evaluate_state_match e = rw e refl

    state_sound :
        rule.type ≡ "state_match"
        → evaluate_state_match_rule rule proposal context ≡ none
        → (or_else rule.snapshot_path "" ≢ "")
          × (match_values rule
                (get_proposal_value proposal rule.field)
                (live_value context (or_else rule.snapshot_path ""))
              ≡ none)
    unfolding evaluate_state_match_rule
    state_sound e h = ground (arith, eq_iff (or_else rule.snapshot_path "") "")

    rule_sound : evaluate_rule rule proposal context ≡ none → Holds rule proposal context
    unfolding evaluate_range_rule evaluate_set_rule
    rule_sound h = record {
      known =
          unfold evaluate_rule in
          ground (
            arith,
            eq_iff rule.type "range",
            eq_iff rule.type "set",
            eq_iff rule.type "state_match",
          );
      in_range = λ e. range_value_sound rule _ (sym (evaluate_range e) ∙ h);
      permitted = λ e. set_value_sound rule _ (sym (evaluate_set e) ∙ h);
      bound = λ e. (state_sound e (sym (evaluate_state_match e) ∙ h)).0;
      matches =
          λ e. match_values_sound rule _ _ (state_sound e (sym (evaluate_state_match e) ∙ h)).1;
    }

    state_complete :
        (or_else rule.snapshot_path "" ≢ "")
        → (match_values rule
              (get_proposal_value proposal rule.field)
              (live_value context (or_else rule.snapshot_path ""))
            ≡ none)
        → evaluate_state_match_rule rule proposal context ≡ none
    unfolding evaluate_state_match_rule
    state_complete b h = ground (arith, eq_iff (or_else rule.snapshot_path "") "")

    rule_complete : Holds rule proposal context → evaluate_rule rule proposal context ≡ none
    unfolding evaluate_range_rule evaluate_set_rule
    rule_complete h = elim h.known [
      | inl e ↦ evaluate_range e ∙ range_value_complete rule _ (h.in_range e)
      | inr (inl e) ↦ evaluate_set e ∙ set_value_complete rule _ (h.permitted e)
      | inr (inr e) ↦
          evaluate_state_match e
          ∙ state_complete (h.bound e)
              (match_values_complete rule _ _ (h.matches e).0 (h.matches e).1)
    ]

  module _ (proposal : PolicyProposal F) (context : Fields F) where
    -- Every rule of the list that applies holds.
    abbrev pub AllHold : List (InvariantSpec F) → Type 0
    AllHold rules = All (λ rule. Applies rule proposal → Holds rule proposal context) rules

    IsWellFormed-all_spec_errors :
        (rules : List (InvariantSpec F)) → evaluate_all rules proposal context ≡ [] → AllHold rules
    unfolding evaluate_all
    IsWellFormed-all_spec_errors [] h = tt
    IsWellFormed-all_spec_errors (rule ∷ rules) h = elim (Bool-cases (skips rule proposal)) [
      | inl s ↦ (
        λ a. cc (s, Applies-skips rule proposal a),
        IsWellFormed-all_spec_errors rules (ground arith),
      )
      | inr s ↦ (
        λ a. rule_sound rule proposal context (ground arith),
        IsWellFormed-all_spec_errors rules (ground arith),
      )
    ]

    all_complete :
        (rules : List (InvariantSpec F)) → AllHold rules → evaluate_all rules proposal context ≡ []
    unfolding evaluate_all
    all_complete [] h = refl
    all_complete (rule ∷ rules) h = elim (Bool-cases (skips rule proposal)) [
      | inl s ↦ ground (arith, all_complete rules h.1)
      | inr s ↦ ground (
        arith,
        rule_complete rule proposal context (h.0 (skips-false rule proposal s)),
        all_complete rules h.1,
      )
    ]

    -- every failure of an applicable rule of the list is in the result
    all_reported :
        (rules : List (InvariantSpec F)) (rule : InvariantSpec F) (f : InvariantEvaluationFailure)
        → Has rule rules
        → Applies rule proposal
        → evaluate_rule rule proposal context ≡ some f
        → Has f (evaluate_all rules proposal context)
    unfolding evaluate_all
    all_reported [] rule f m a e = elim m [ ]
    all_reported (r ∷ rules) rule f (inl q) a e =
        rw q (ground (arith, Applies-skips rule proposal a))
    all_reported (r ∷ rules) rule f (inr m) a e =
        let ih = all_reported rules rule f m a e in
        elim (Bool-cases (skips r proposal)) [
          | inl s ↦ rw s ih
          | inr s ↦ rw s (elim (Option-cases (evaluate_rule r proposal context)) [
            | inl n ↦ rw n ih
            | inr (g, q) ↦ rw q (inr ih)
          ])
        ]

  -- The evaluator reports no failure exactly when every rule of the projection that applies to the
  -- proposal's kind holds: ranges, sets and state matches, each by its own demand.
  pub evaluate_invariants-eq-nil_iff :
      (proposal : PolicyProposal F) (projection : RuntimeContractProjection F) (context : Fields F)
      → (evaluate_invariants proposal projection context ≡ [])
        ↔ AllHold proposal context projection.invariants
  unfolding evaluate_invariants
  evaluate_invariants-eq-nil_iff proposal projection context = (
    IsWellFormed-all_spec_errors proposal context projection.invariants,
    all_complete proposal context projection.invariants,
  )
