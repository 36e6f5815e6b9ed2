-- ===== src/Governance/Predicates.antt =====
-- tools/contract/governance/validation.py: the shape of a candidate's predicate, and whether the
-- numeric bounds of the candidates can be met together. The solver z3 is the parameter `solve`: `none`
-- where it is not installed, otherwise whether a list of constraints can be satisfied.
pub mod Shaped
use decision_intelligence_ru.Python.{Prims, Value, bool, num, of_bool}
use decision_intelligence_ru.Prelude.{
  Bool, List, Option, String, [], false, if◌then◌else◌, mem, none, not, some, true, ◌&&◌, ◌++◌,
  ◌==◌, ◌||◌, ◌∷◌,
}
use decision_intelligence_ru.Python.Text.{◌+s◌}
use decision_intelligence_ru.Governance.Analysis.{
  InvariantCandidate, Operand, PredicateAst, ValidationIssue, blocking, child, issue_if, leaf, node,
}

abbrev pub supported_predicate_ops : List String
supported_predicate_ops =
    "eq" ∷ "neq" ∷ "lt" ∷ "le" ∷ "gt" ∷ "ge" ∷ "in" ∷ "not_in" ∷ "and" ∷ "or" ∷ "not" ∷ []

unfoldable pub op_issue : String → String → List ValidationIssue
op_issue op path =
    issue_if (not (mem op supported_predicate_ops))
      (blocking "AST_INVALID_OP" ("Unsupported predicate op '" +s op +s "' at " +s path) path)

abbrev pub shape_issue : String → String → List ValidationIssue
shape_issue message path = blocking "AST_SHAPE" message path ∷ []

-- the texts of the operators that have children
abbrev pub and_op : String
and_op = "and"

abbrev pub or_op : String
or_op = "or"

abbrev pub not_op : String
not_op = "not"

-- what is found below a node, given what is found in its children
unfoldable pub below_issues :
    String
    → String
    → Bool
    → Bool
    → List ValidationIssue
    → List ValidationIssue
    → List ValidationIssue
below_issues op path has_left has_right lefts rights =
    if op == and_op || op == or_op
    then (if has_left && has_right
        then lefts ++ rights
        else shape_issue ("Binary op " +s op +s " requires PredicateAST children at " +s path) path)
    else if op == not_op
    then (if has_left
        then lefts
        else shape_issue ("not requires PredicateAST child at " +s path) path)
    else []

module _ {F : Type 0} where
  abbrev pub is_child : Operand F → Bool
  is_child (child a) = true
  is_child (leaf v) = false

unfoldable mutual
  unfolding op_issue below_issues

  -- `_validate_ast_node`
  pub validate_ast_node : {F : Type 0} → PredicateAst F → String → List ValidationIssue
  validate_ast_node (node op left right value variable) path =
      let lefts = operand_issues left (path +s ".left") in
      let rights = operand_issues right (path +s ".right") in
      op_issue op path ++ below_issues op path (is_child left) (is_child right) lefts rights

  pub operand_issues : {F : Type 0} → Operand F → String → List ValidationIssue
  operand_issues (child a) path = validate_ast_node a path
  operand_issues (leaf v) path = []

module _ {F : Type 0} where
  unfoldable pub candidate_ast : InvariantCandidate F → List ValidationIssue
  candidate_ast inv = elim inv.predicate [
    | none ↦ []
    | some predicate ↦ validate_ast_node predicate inv.invariant_id
  ]

  unfoldable pub all_ast : List (InvariantCandidate F) → List ValidationIssue
  all_ast [] = []
  all_ast (inv ∷ invs) = candidate_ast inv ++ all_ast invs

-- `(variable, op, bound)`
pub record NumericBound (F : Type 0) : Type 0 where
  pub variable : String
  pub op : String
  pub bound : F

abbrev pub bound_ops : List String
bound_ops = "le" ∷ "lt" ∷ "ge" ∷ "gt" ∷ "eq" ∷ []

abbrev pub warning : String → String → ValidationIssue
warning c message = record {
  issue_code = c;
  message = message;
  severity = "warning";
  issue_field = none;
}

module _ {F : Type 0} ⦃p : Prims F⦄ where
  -- `isinstance(node.value, (int, float))`, as a float; None is none
  unfoldable pub bound_of : Value F → Option F
  bound_of (num x) = some x
  bound_of (bool b) = some (of_bool b)
  bound_of _ = none

  unfoldable pub node_bounds : Option String → String → Option F → List (NumericBound F)
  node_bounds (some variable) op (some x) =
      if not (variable == "") && mem op bound_ops
      then record { variable = variable; op = op; bound = x } ∷ []
      else []
  node_bounds _ op _ = []

  -- `_collect_numeric_bounds`: only the root of a predicate is read
  unfoldable pub collect_numeric_bounds : InvariantCandidate F → List (NumericBound F)
  collect_numeric_bounds inv = elim inv.predicate [
    | none ↦ []
    | some (node op left right value variable) ↦ node_bounds variable op (bound_of value)
  ]

  unfoldable pub all_bounds : List (InvariantCandidate F) → List (NumericBound F)
  all_bounds [] = []
  all_bounds (inv ∷ invs) = collect_numeric_bounds inv ++ all_bounds invs

  -- the blocking issue of the solver's answer, the constraints being there
  unfoldable pub sat_issues :
      Option (List (NumericBound F) → Bool) → List (NumericBound F) → List ValidationIssue
  sat_issues solve [] = []
  sat_issues none (b ∷ bs) = []
  sat_issues (some solve) (b ∷ bs) = issue_if (not (solve (b ∷ bs))) (record {
    issue_code = "SAT_UNSAT";
    message = "Invariant numeric bounds are mutually unsatisfiable.";
    severity = "blocking";
    issue_field = none;
  })

  -- the further constraint of the liveness check: the first variable is not negative
  unfoldable pub not_negative : NumericBound F → NumericBound F
  not_negative b = record { variable = b.variable; op = "ge"; bound = p.dec 0 0 }

  unfoldable pub sat_warnings :
      Option (List (NumericBound F) → Bool) → List (NumericBound F) → List ValidationIssue
  sat_warnings solve [] = []
  sat_warnings none (b ∷ bs) =
      warning "SAT_SKIPPED" "z3-solver not available; formal satisfiability not verified." ∷ []
  sat_warnings (some solve) (b ∷ bs) = issue_if (not (solve ((b ∷ bs) ++ not_negative b ∷ []))) (
      warning "LIVENESS_GAP"
        "No witness found for permitted numeric region (may be over-constrained).")

  -- the blocking issues and the warnings of `_validate_ast_and_sat`
  unfoldable pub validate_ast_and_sat :
      Option (List (NumericBound F) → Bool)
      → List (InvariantCandidate F)
      → List ValidationIssue × List ValidationIssue
  validate_ast_and_sat solve candidates = (
    all_ast candidates ++ sat_issues solve (all_bounds candidates),
    sat_warnings solve (all_bounds candidates),
  )
