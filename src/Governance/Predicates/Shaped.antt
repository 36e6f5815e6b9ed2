-- ===== src/Governance/Predicates/Shaped.antt =====
-- What the check of a predicate's shape lets through.
use decision_intelligence_ru.Prelude.{
  Bool, Bool-cases, List, Option, String, [], arith, false, false≢true, if◌then◌else◌, inl, inr,
  mem, not, refl, true, ◌&&◌, ◌++◌, ◌==◌, ◌||◌, ◌∷◌, ◌≡◌,
}
use decision_intelligence_ru.Python.{Value}
use decision_intelligence_ru.Python.Text.{◌+s◌}
use decision_intelligence_ru.Governance.Analysis.{
  Operand, PredicateAst, ValidationIssue, child, issue_if, leaf, node,
}
use decision_intelligence_ru.Governance.Predicates.{
  and_op, below_issues, is_child, not_op, op_issue, operand_issues, or_op, shape_issue,
  supported_predicate_ops, validate_ast_node,
}

-- Two predicates below "and" and "or", one below "not", and a supported comparison everywhere else.
pub data IsShaped {F : Type 0} : PredicateAst F → Type 0 where
  both :
      {op : String} {a b : PredicateAst F} {value : Value F} {variable : Option String}
      → op == and_op || op == or_op ≡ true
      → IsShaped a
      → IsShaped b
      → IsShaped (node op (child a) (child b) value variable)
  negation :
      {op : String} {a : PredicateAst F} {right : Operand F} {value : Value F}
      {variable : Option String}
      → op == and_op || op == or_op ≡ false
      → op == not_op ≡ true
      → IsShaped a
      → IsShaped (node op (child a) right value variable)
  comparison :
      {op : String} {left right : Operand F} {value : Value F} {variable : Option String}
      → mem op supported_predicate_ops ≡ true
      → op == and_op || op == or_op || op == not_op ≡ false
      → IsShaped (node op left right value variable)

pub issue_free :
    (found : Bool) (issue : ValidationIssue) → issue_if found issue ≡ [] → found ≡ false
unfolding issue_if
issue_free true issue h = cc
issue_free false issue h = refl

pub both_empty : (xs ys : List ValidationIssue) → xs ++ ys ≡ [] → (xs ≡ []) × (ys ≡ [])
both_empty [] ys h = (refl, h)
both_empty (x ∷ xs) ys h = cc

if_shaped :
    (b : Bool) (xs : List ValidationIssue) (message path : String)
    → (if b then xs else shape_issue message path) ≡ []
    → (b ≡ true) × (xs ≡ [])
if_shaped true xs message path h = (refl, h)
if_shaped false xs message path h = cc

below_both :
    (op path : String) (has_left has_right : Bool) (lefts rights : List ValidationIssue)
    → op == and_op || op == or_op ≡ true
    → below_issues op path has_left has_right lefts rights ≡ []
    → (has_left && has_right ≡ true) × (lefts ++ rights ≡ [])
unfolding below_issues
below_both op path has_left has_right lefts rights e h =
    if_shaped (has_left && has_right) (lefts ++ rights) _ path (rw (e, below_issues) at h)

below_not :
    (op path : String) (has_left has_right : Bool) (lefts rights : List ValidationIssue)
    → op == and_op || op == or_op ≡ false
    → op == not_op ≡ true
    → below_issues op path has_left has_right lefts rights ≡ []
    → (has_left ≡ true) × (lefts ≡ [])
unfolding below_issues
below_not op path has_left has_right lefts rights e f h =
    if_shaped has_left lefts _ path (rw (e, f, below_issues) at h)

known_op : (op path : String) → op_issue op path ≡ [] → mem op supported_predicate_ops ≡ true
unfolding op_issue
known_op op path h = ground (arith, issue_free (not (mem op supported_predicate_ops)) _ h)

module _ {F : Type 0} where
  -- The two parts of a node's check.
  parts :
      (op : String) (left right : Operand F) (value : Value F) (variable : Option String)
      (path : String)
      → validate_ast_node (node op left right value variable) path ≡ []
      → (mem op supported_predicate_ops ≡ true)
        × (below_issues op path
              (is_child left)
              (is_child right)
              (operand_issues left (path +s ".left"))
              (operand_issues right (path +s ".right"))
            ≡ [])
  unfolding validate_ast_node
  parts op left right value variable path h =
      let (known, below) =
        both_empty (op_issue op path)
          (below_issues op path (is_child left) (is_child right)
            (operand_issues left (path +s ".left")) (operand_issues right (path +s ".right")))
          h in
      (known_op op path known, below)

abbrev OperandIsShaped : {F : Type 0} → Operand F → Type 0
OperandIsShaped (child a) = IsShaped a
OperandIsShaped (leaf v) = Unit

node_shaped :
    {F : Type 0}
    → (op : String) (left right : Operand F) (value : Value F) (variable : Option String)
      (path : String)
    → mem op supported_predicate_ops ≡ true
    → below_issues op path
        (is_child left)
        (is_child right)
        (operand_issues left (path +s ".left"))
        (operand_issues right (path +s ".right"))
      ≡ []
    → (operand_issues left (path +s ".left") ≡ [] → OperandIsShaped left)
    → (operand_issues right (path +s ".right") ≡ [] → OperandIsShaped right)
    → IsShaped (node op left right value variable)
node_shaped op (child a) (child b) value variable path known h il ir =
    elim (Bool-cases (op == and_op || op == or_op)) [
      | inl e ↦
          let (has, empty) = below_both op path true true _ _ e h in
          let (l, r) = both_empty _ _ empty in both e (il l) (ir r)
      | inr e ↦ elim (Bool-cases (op == not_op)) [
        | inl f ↦ negation e f (il (below_not op path true true _ _ e f h).1)
        | inr f ↦ comparison known (ground arith)
      ]
    ]
node_shaped op (child a) (leaf w) value variable path known h il ir =
    elim (Bool-cases (op == and_op || op == or_op)) [
      | inl e ↦ absurd (false≢true (below_both op path true false _ _ e h).0)
      | inr e ↦ elim (Bool-cases (op == not_op)) [
        | inl f ↦ negation e f (il (below_not op path true false _ _ e f h).1)
        | inr f ↦ comparison known (ground arith)
      ]
    ]
node_shaped op (leaf w) right value variable path known h il ir =
    elim (Bool-cases (op == and_op || op == or_op)) [
      | inl e ↦
          absurd
            (false≢true (ground (arith, (below_both op path false (is_child right) _ _ e h).0)))
      | inr e ↦ elim (Bool-cases (op == not_op)) [
        | inl f ↦ absurd (false≢true (below_not op path false (is_child right) _ _ e f h).0)
        | inr f ↦ comparison known (ground arith)
      ]
    ]

mutual
  unfolding operand_issues

  shaped :
      {F : Type 0}
      → (a : PredicateAst F) (path : String) → validate_ast_node a path ≡ []
      → IsShaped a
  shaped (node op left right value variable) path h =
      let (known, below) = parts op left right value variable path h in
      node_shaped op left right value variable path known below
        (operand_shaped left (path +s ".left")) (operand_shaped right (path +s ".right"))

  operand_shaped :
      {F : Type 0}
      → (o : Operand F) (path : String) → operand_issues o path ≡ []
      → OperandIsShaped o
  operand_shaped (child a) path h = shaped a path h
  operand_shaped (leaf v) path h = tt

-- Where the check of a candidate's predicate finds nothing to block, the predicate is well shaped:
-- "and" and "or" stand over two predicates, "not" over one, and every other node has a supported
-- operator, at any depth.
pub validate_ast-IsShaped :
    {F : Type 0} → (a : PredicateAst F) (path : String) → validate_ast_node a path ≡ [] → IsShaped a
validate_ast-IsShaped = shaped
