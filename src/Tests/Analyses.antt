-- ===== src/Tests/Analyses.antt =====
-- The theorems on governance analyses at concrete data.
use decision_intelligence_ru.Prelude.{All, List, String, [], none, pos, refl, some, ℕ, ◌∷◌, ◌≡◌}
use decision_intelligence_ru.Python.{null, num}
use decision_intelligence_ru.Python.Sample.{Sample, cents, sample}
use decision_intelligence_ru.Governance
use decision_intelligence_ru.Governance.Analysis.{
  GovernanceAnalysis, InvariantCandidate, PredicateAst, child, key_issues, leaf, node,
  validate_references,
}
use decision_intelligence_ru.Governance.Predicates.{validate_ast_and_sat}
use decision_intelligence_ru.Governance.Unblocked.{
  AreFresh, IsKnown, IsSoundCandidate, unblocked-IsSoundCandidate,
}

-- amount <= value
abbrev at_most : ℕ → PredicateAst Sample
at_most n = node "le" (leaf null) (leaf null) (num (cents (pos n))) (some "amount")

abbrev refund_rule : InvariantCandidate Sample
refund_rule = record {
  invariant_id = "INV_REFUND";
  constraint_class = Governance.transaction_invariant;
  applies_to_actions = "REFUND" ∷ [];
  predicate = some (node "and" (child (at_most 5000)) (child (at_most 9000)) null none);
  source_bindings = "ROA-1" ∷ [];
  linked_limit_key = some "max_refund_usd";
}

abbrev analysis : GovernanceAnalysis Sample
analysis = record { goal = none; action_classes = []; invariant_candidates = refund_rule ∷ [] }

abbrev clauses : List String
clauses = "ROA-1" ∷ "ROA-2" ∷ []

refs_example : validate_references clauses analysis ≡ []
unfolding validate_references decision_intelligence_ru.Governance.Analysis.candidate_refs
    decision_intelligence_ru.Governance.Analysis.issue_if decision_intelligence_ru.Prelude.mem
    decision_intelligence_ru.Governance.Analysis.binding_issues
    decision_intelligence_ru.Governance.Analysis.is_unknown
    decision_intelligence_ru.Governance.Analysis.goal_issues
    decision_intelligence_ru.Governance.Analysis.action_issues
refs_example = refl

keys_example : key_issues (refund_rule ∷ []) ≡ []
unfolding key_issues decision_intelligence_ru.Governance.Analysis.issue_if
    decision_intelligence_ru.Governance.Analysis.bad_key decision_intelligence_ru.Prelude.mem
keys_example = refl

ast_example : (validate_ast_and_sat none (refund_rule ∷ [])).0 ≡ []
unfolding validate_ast_and_sat decision_intelligence_ru.Governance.Predicates.all_ast
    decision_intelligence_ru.Governance.Predicates.candidate_ast
    decision_intelligence_ru.Governance.Predicates.validate_ast_node
    decision_intelligence_ru.Governance.Analysis.issue_if decision_intelligence_ru.Prelude.mem
    decision_intelligence_ru.Governance.Predicates.sat_issues
    decision_intelligence_ru.Governance.Predicates.all_bounds
    decision_intelligence_ru.Governance.Predicates.collect_numeric_bounds
    decision_intelligence_ru.Governance.Predicates.node_bounds
ast_example = refl

unblocked-IsSoundCandidate_example :
    AreFresh [] (refund_rule ∷ [])
    × All (λ inv. All (IsKnown clauses) inv.source_bindings) (refund_rule ∷ [])
    × All IsSoundCandidate (refund_rule ∷ [])
unblocked-IsSoundCandidate_example =
    unblocked-IsSoundCandidate clauses analysis none refl refs_example keys_example ast_example
