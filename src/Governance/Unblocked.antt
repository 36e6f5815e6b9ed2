-- ===== src/Governance/Unblocked.antt =====
-- What an analysis is like in which tools/contract/governance/validation.py finds nothing to block.
use decision_intelligence_ru.Prelude.{
  All, Bool, List, Option, String, [], ap, arith, false, is_empty, mem, none, some, sym, true, ◌++◌,
  ◌==◌, ◌∙◌, ◌∷◌, ◌≡◌, ◌≢◌,
}
use decision_intelligence_ru.Python.{Prims}
use decision_intelligence_ru.Contract.{irreversible_limit_keys}
use decision_intelligence_ru.Contract.Errors.{unset_text}
use decision_intelligence_ru.Governance.Analysis.{
  GovernanceAnalysis, InvariantCandidate, PredicateAst, action_issues, bad_key, binding_issues,
  candidate_refs, duplicate_issue, goal_issues, is_unknown, issue_if, key_issues,
  validate_references,
}
use decision_intelligence_ru.Governance.Predicates.{
  NumericBound, all_ast, all_bounds, candidate_ast, sat_issues, validate_ast_and_sat,
}
use decision_intelligence_ru.Governance.Predicates.Shaped.{
  IsShaped, both_empty, issue_free, validate_ast-IsShaped,
}

-- The clause is one of the pack's.
abbrev pub IsKnown : List String → String → Type 0
IsKnown ids id = mem id ids ≡ true

-- No id is one of those before it.
abbrev pub AreFresh : {F : Type 0} → List String → List (InvariantCandidate F) → Type 0
AreFresh seen [] = Unit
AreFresh seen (inv ∷ invs) =
    (mem inv.invariant_id seen ≡ false) × AreFresh (inv.invariant_id ∷ seen) invs

-- A linked limit is an irreversible one, and a predicate is well shaped.
abbrev pub IsSoundCandidate : {F : Type 0} → InvariantCandidate F → Type 0
IsSoundCandidate {F = F} inv =
    ((key : String)
      → inv.linked_limit_key ≡ some key
      → key ≢ ""
      → mem key irreversible_limit_keys ≡ true)
    × ((a : PredicateAst F) → inv.predicate ≡ some a → IsShaped a)

bindings-IsKnown :
    (ids : List String) (place path : String) (cited : List String)
    → is_empty ids ≡ false
    → binding_issues ids place path cited ≡ []
    → All (IsKnown ids) cited
unfolding binding_issues
bindings-IsKnown ids place path [] e h = tt
bindings-IsKnown ids place path (id ∷ cited) e h =
    let (first, rest) = both_empty _ (binding_issues ids place path cited) h in
    let known = issue_free (is_unknown ids id) _ first in
    (unfold is_unknown in ground arith, bindings-IsKnown ids place path cited e rest)

limit_named :
    (key : String)
    → bad_key (some key) ≡ false
    → (key == "") ≡ false
    → mem key irreversible_limit_keys ≡ true
unfolding bad_key
limit_named key h n = ground arith

key_sound :
    (o : Option String)
    → bad_key o ≡ false
    → (key : String) → o ≡ some key
    → key ≢ ""
    → mem key irreversible_limit_keys ≡ true
unfolding bad_key
key_sound none h key e n = cc
key_sound (some k) h key e n = limit_named key (ap (λ o. bad_key o) (sym e) ∙ h) (unset_text key n)

module _ {F : Type 0} where
  refs_sound :
      (ids seen : List String) (invs : List (InvariantCandidate F))
      → is_empty ids ≡ false
      → candidate_refs ids seen invs ≡ []
      → AreFresh seen invs × All (λ inv. All (IsKnown ids) inv.source_bindings) invs
  unfolding candidate_refs
  refs_sound ids seen [] e h = (tt, tt)
  refs_sound ids seen (inv ∷ invs) e h =
      let (h1, h2) =
        both_empty
          (issue_if (mem inv.invariant_id seen) (duplicate_issue inv)
            ++ binding_issues ids "in source_bindings" "source_bindings" inv.source_bindings)
          (candidate_refs ids (inv.invariant_id ∷ seen) invs) h in
      let (fresh, known) =
        both_empty (issue_if (mem inv.invariant_id seen) (duplicate_issue inv))
          (binding_issues ids "in source_bindings" "source_bindings" inv.source_bindings) h1 in
      let (later, others) = refs_sound ids (inv.invariant_id ∷ seen) invs e h2 in
      (
        (issue_free (mem inv.invariant_id seen) (duplicate_issue inv) fresh, later),
        (
          bindings-IsKnown ids "in source_bindings" "source_bindings" inv.source_bindings e known,
          others,
        ),
      )

  ast_sound :
      (inv : InvariantCandidate F)
      → candidate_ast inv ≡ []
      → (a : PredicateAst F) → inv.predicate ≡ some a
      → IsShaped a
  unfolding candidate_ast
  ast_sound inv h a e = validate_ast-IsShaped a inv.invariant_id (rw e at h)

  candidates_sound :
      (invs : List (InvariantCandidate F))
      → key_issues invs ≡ []
      → all_ast invs ≡ []
      → All IsSoundCandidate invs
  unfolding key_issues all_ast
  candidates_sound [] h k = tt
  candidates_sound (inv ∷ invs) h k =
      let (key, keys) =
        both_empty (issue_if (bad_key inv.linked_limit_key) _) (key_issues invs) h in
      let (ast, asts) = both_empty (candidate_ast inv) (all_ast invs) k in
      (
        (key_sound inv.linked_limit_key (issue_free _ _ key), ast_sound inv ast),
        candidates_sound invs keys asts,
      )

  -- In an analysis without blocking issues over a pack that has clauses, the ids of the candidates are
  -- distinct, every clause that a candidate cites is one of the pack's, a limit that a candidate is
  -- linked to is an irreversible one, and every predicate is well shaped; for any solver.
  pub unblocked-IsSoundCandidate :
      ⦃p : Prims F⦄
      → (ids : List String) (analysis : GovernanceAnalysis F)
        (solve : Option (List (NumericBound F) → Bool))
      → is_empty ids ≡ false
      → validate_references ids analysis ≡ []
      → key_issues analysis.invariant_candidates ≡ []
      → (validate_ast_and_sat solve analysis.invariant_candidates).0 ≡ []
      → AreFresh [] analysis.invariant_candidates
        × All (λ inv. All (IsKnown ids) inv.source_bindings) analysis.invariant_candidates
        × All IsSoundCandidate analysis.invariant_candidates
  unfolding validate_references validate_ast_and_sat
  unblocked-IsSoundCandidate ids analysis solve e h k s =
      let (h1, actions) =
        both_empty
          (candidate_refs ids [] analysis.invariant_candidates ++ goal_issues ids analysis.goal)
          (action_issues ids analysis.action_classes) h in
      let (refs, goal) =
        both_empty (candidate_refs ids [] analysis.invariant_candidates)
          (goal_issues ids analysis.goal) h1 in
      let (ast, s1) =
        both_empty (all_ast analysis.invariant_candidates)
          (sat_issues solve (all_bounds analysis.invariant_candidates)) s in
      let (fresh, known) = refs_sound ids [] analysis.invariant_candidates e refs in
      (fresh, known, candidates_sound analysis.invariant_candidates k ast)
