-- ===== src/Governance/Analysis.antt =====
-- tools/contract/governance/validation.py: the checks of the analysis that a language model returns
-- for a contract (models.py): references to clauses, candidates of invariants, the shape of their
-- predicates, and whether their numeric bounds can be met. The solver z3 is the parameter `solve`:
-- `none` where it is not installed, otherwise the answer to a list of constraints. A Literal stands as
-- its text.
use decision_intelligence_ru.Governance.{ConstraintClass}
use decision_intelligence_ru.Governance.Clauses.{is_transaction}
use decision_intelligence_ru.Prelude.{
  Bool, List, Option, String, [], false, if◌then◌else◌, is_empty, is_some, mem, none, not, some,
  ◌&&◌, ◌++◌, ◌==◌, ◌∷◌,
}
use decision_intelligence_ru.Python.{Value}
use decision_intelligence_ru.Python.Text.{◌+s◌}
use decision_intelligence_ru.Contract.{irreversible_limit_keys}

mutual
  pub data PredicateAst (F : Type 0) : Type 0 where
    node : String → Operand F → Operand F → Value F → Option String → PredicateAst F

  -- a child: a predicate, or None, a variable or a constant
  pub data Operand (F : Type 0) : Type 0 where
    child : PredicateAst F → Operand F
    leaf : Value F → Operand F

pub record ActionClass : Type 0 where
  pub action_type : String
  pub reversibility : String
  pub source_bindings : List String
  pub linked_limit_key : Option String

pub record GoalModel : Type 0 where
  pub objective : String
  pub source_bindings : List String

-- The bindings of a candidate are the ids of the clauses that it cites.
pub record InvariantCandidate (F : Type 0) : Type 0 where
  pub invariant_id : String
  pub constraint_class : ConstraintClass
  pub applies_to_actions : List String
  pub predicate : Option (PredicateAst F)
  pub source_bindings : List String
  pub linked_limit_key : Option String

pub record GovernanceAnalysis (F : Type 0) : Type 0 where
  pub goal : Option GoalModel
  pub action_classes : List ActionClass
  pub invariant_candidates : List (InvariantCandidate F)

pub record ValidationIssue : Type 0 where
  pub issue_code : String
  pub message : String
  pub severity : String
  pub issue_field : Option String

abbrev pub blocking : String → String → String → ValidationIssue
blocking c message path = record {
  issue_code = c;
  message = message;
  severity = "blocking";
  issue_field = some path;
}

unfoldable pub issue_if : Bool → ValidationIssue → List ValidationIssue
issue_if found issue = if found then issue ∷ [] else []

-- `valid_clause_ids and binding.clause_id not in valid_clause_ids`
unfoldable pub is_unknown : List String → String → Bool
is_unknown valid_clause_ids id = not (is_empty valid_clause_ids) && not (mem id valid_clause_ids)

-- the loop over the bindings of one place
unfoldable pub binding_issues : List String → String → String → List String → List ValidationIssue
binding_issues valid_clause_ids where_found path [] = []
binding_issues valid_clause_ids where_found path (id ∷ ids) =
    issue_if (is_unknown valid_clause_ids id)
      (blocking "INVALID_CLAUSE_REF" ("Unknown clause_id " +s where_found +s ": " +s id) path)
    ++ binding_issues valid_clause_ids where_found path ids

unfoldable pub goal_issues : List String → Option GoalModel → List ValidationIssue
goal_issues valid_clause_ids none = []
goal_issues valid_clause_ids (some goal) =
    binding_issues valid_clause_ids "on goal" "goal.source_bindings" goal.source_bindings

unfoldable pub action_issues : List String → List ActionClass → List ValidationIssue
action_issues valid_clause_ids [] = []
action_issues valid_clause_ids (action ∷ actions) =
    binding_issues valid_clause_ids ("on action " +s action.action_type)
      "action_classes.source_bindings" action.source_bindings
    ++ action_issues valid_clause_ids actions

-- `inv.linked_limit_key and inv.linked_limit_key not in IRREVERSIBLE_LIMIT_KEYS`
unfoldable pub bad_key : Option String → Bool
bad_key none = false
bad_key (some key) = not (key == "") && not (mem key irreversible_limit_keys)

unfoldable pub key_text : Option String → String
key_text none = "None"
key_text (some key) = key

module _ {F : Type 0} where
  abbrev pub duplicate_issue : InvariantCandidate F → ValidationIssue
  duplicate_issue inv =
      blocking "DUPLICATE_INVARIANT_ID" ("Duplicate invariant_id: " +s inv.invariant_id)
        "invariant_candidates"

  -- the loop over the candidates, with the ids seen
  unfoldable pub candidate_refs :
      List String → List String → List (InvariantCandidate F) → List ValidationIssue
  candidate_refs valid_clause_ids seen [] = []
  candidate_refs valid_clause_ids seen (inv ∷ invs) =
      issue_if (mem inv.invariant_id seen) (duplicate_issue inv)
      ++ binding_issues valid_clause_ids "in source_bindings" "source_bindings" inv.source_bindings
      ++ candidate_refs valid_clause_ids (inv.invariant_id ∷ seen) invs

  unfoldable pub validate_references : List String → GovernanceAnalysis F → List ValidationIssue
  validate_references valid_clause_ids analysis =
      candidate_refs valid_clause_ids [] analysis.invariant_candidates
      ++ goal_issues valid_clause_ids analysis.goal
      ++ action_issues valid_clause_ids analysis.action_classes

  -- the blocking issues of `_validate_invariant_candidates`
  unfoldable pub key_issues : List (InvariantCandidate F) → List ValidationIssue
  key_issues [] = []
  key_issues (inv ∷ invs) =
      issue_if (bad_key inv.linked_limit_key) (
        blocking "INVALID_LIMIT_KEY"
          ("linked_limit_key '" +s key_text inv.linked_limit_key +s "' is not canonical")
          "linked_limit_key")
      ++ key_issues invs

  -- its warnings
  unfoldable pub candidate_warnings : List (InvariantCandidate F) → List ValidationIssue
  candidate_warnings [] = []
  candidate_warnings (inv ∷ invs) =
      issue_if (not (is_some inv.predicate) && is_transaction inv.constraint_class) (record {
        issue_code = "INVARIANT_NO_PREDICATE";
        message = "Transaction invariant " +s inv.invariant_id +s " has no formal predicate.";
        severity = "warning";
        issue_field = some "predicate";
      })
      ++ candidate_warnings invs
