-- ===== src/Governance/Clauses.antt =====
-- tools/contract/governance/context.py: which clauses of a pack go into a prompt. `none` for a preset
-- or a role is Python's None; the greatest number of clauses is a natural number.
pub mod Ranked
pub mod Selected
use decision_intelligence_ru.Prelude.{
  Bool, List, Option, String, [], eqb, false, if◌then◌else◌, is_empty, keep, leb, length, ltb, mem,
  none, not, some, take, true, ℕ, ◌&&◌, ◌++◌, ◌+◌, ◌==◌, ◌||◌, ◌∷◌,
}
use decision_intelligence_ru.Governance.{
  ConstraintClass, GovernanceClause, GovernanceContextPack, NormativeLevel, mandatory,
  transaction_invariant,
}
use decision_intelligence_ru.Python.Text.{text_le}

-- `wanted and wanted in names`
unfoldable pub is_wanted : Option String → List String → Bool
is_wanted none names = false
is_wanted (some wanted) names = not (wanted == "") && mem wanted names

-- `wanted and names and wanted not in names`
unfoldable pub is_foreign : Option String → List String → Bool
is_foreign none names = false
is_foreign (some wanted) names =
    not (wanted == "") && not (is_empty names) && not (mem wanted names)

unfoldable pub is_mandatory : NormativeLevel → Bool
is_mandatory mandatory = true
is_mandatory _ = false

unfoldable pub is_transaction : ConstraintClass → Bool
is_transaction transaction_invariant = true
is_transaction _ = false

unfoldable pub score : Option String → Option String → GovernanceClause → ℕ
score preset role clause =
    (if is_wanted preset clause.presets then 4 else 0)
    + (if is_wanted role clause.roles then 3 else 0)
    + (if is_mandatory clause.normative_level then 2 else 0)
    + (if is_transaction clause.constraint_class then 1 else 0)

-- `(-score(a), a.clause_id) <= (-score(b), b.clause_id)`, of clauses with their scores
unfoldable pub goes_first : ℕ × GovernanceClause → ℕ × GovernanceClause → Bool
goes_first (m, a) (n, b) = ltb n m || eqb m n && text_le a.clause_id b.clause_id

unfoldable pub insert_scored :
    ℕ × GovernanceClause → List (ℕ × GovernanceClause) → List (ℕ × GovernanceClause)
insert_scored a [] = a ∷ []
insert_scored a (b ∷ bs) =
    let rest = insert_scored a bs in if goes_first a b then a ∷ b ∷ bs else b ∷ rest

unfoldable pub sort_scored :
    Option String → Option String → List GovernanceClause → List (ℕ × GovernanceClause)
sort_scored preset role [] = []
sort_scored preset role (c ∷ cs) =
    insert_scored (score preset role c, c) (sort_scored preset role cs)

-- What the loop does with a clause.
pub data Choice : Type 0 where
  skip stop choose : Choice

-- neither of another preset nor of another role
unfoldable pub fits : Option String → Option String → GovernanceClause → Bool
fits preset role clause =
    not (is_foreign preset clause.presets) && not (is_foreign role clause.roles)

unfoldable pub choice :
    Option String
    → Option String
    → ℕ
    → List String
    → List GovernanceClause
    → GovernanceClause
    → Choice
choice preset role max_clauses seen selected clause =
    if mem clause.clause_id seen
    then skip
    else if leb max_clauses (length selected)
    then stop
    else if fits preset role clause
    then choose
    else skip

-- the loop over the sorted optional clauses
unfoldable pub select_loop :
    Option String
    → Option String
    → ℕ
    → List String
    → List GovernanceClause
    → List (ℕ × GovernanceClause)
    → List GovernanceClause
select_loop preset role max_clauses seen selected [] = selected
select_loop preset role max_clauses seen selected ((s, c) ∷ cs) =
    elim (choice preset role max_clauses seen selected c) [
      | skip ↦ select_loop preset role max_clauses seen selected cs
      | stop ↦ selected
      | choose ↦ select_loop preset role max_clauses (c.clause_id ∷ seen) (selected ++ c ∷ []) cs
    ]

unfoldable pub clause_ids : List GovernanceClause → List String
clause_ids [] = []
clause_ids (c ∷ cs) = c.clause_id ∷ clause_ids cs

unfoldable pub fundamentals : GovernanceContextPack → List GovernanceClause
fundamentals pack = keep (λ c. c.fundamental) pack.clauses

unfoldable pub select_clauses :
    GovernanceContextPack → Option String → Option String → ℕ → List GovernanceClause
select_clauses pack preset role max_clauses =
    let optional = keep (λ c. not c.fundamental) pack.clauses in
    take max_clauses (
      select_loop preset role max_clauses (clause_ids (fundamentals pack)) (fundamentals pack)
        (sort_scored preset role optional))
