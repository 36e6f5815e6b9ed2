-- ===== src/Governance/Clauses/Ranked.antt =====
-- The order in which tools/contract/governance/context.py ranks the optional clauses of a pack.
use decision_intelligence_ru.Prelude.{
  All, Bool-cases, Has, List, Option, String, [], ap, arith, false, inl, inr, true, ℕ, ◌∷◌, ◌≡◌,
  ◌≤◌, ◌⊎◌,
}
use decision_intelligence_ru.Governance.{GovernanceClause}
use decision_intelligence_ru.Governance.Clauses.{goes_first, insert_scored, score, sort_scored}

All-map :
    {A : Type 0} (P Q : A → Type 0) (xs : List A) → ((a : A) → P a → Q a) → All P xs → All Q xs
All-map P Q [] f h = tt
All-map P Q (x ∷ xs) f h = (f x h.0, All-map P Q xs f h.1)

-- Of all clauses after a clause, none has a higher score.
abbrev pub Descending : List (ℕ × GovernanceClause) → Type 0
Descending [] = Unit
Descending (e ∷ es) = All (λ d. d.0 ≤ e.0) es × Descending es

insert-All :
    (P : ℕ × GovernanceClause → Type 0) (a : ℕ × GovernanceClause)
    (es : List (ℕ × GovernanceClause))
    → P a
    → All P es
    → All P (insert_scored a es)
unfolding insert_scored
insert-All P a [] h k = (h, tt)
insert-All P a (b ∷ bs) h k = elim (Bool-cases (goes_first a b)) [
  | inl e ↦ rw e (h, k)
  | inr e ↦ rw e (k.0, insert-All P a bs h k.1)
]

first_le : (a b : ℕ × GovernanceClause) → goes_first a b ≡ true → b.0 ≤ a.0
unfolding goes_first
first_le (m, c) (n, d) h = ground arith

after_le : (a b : ℕ × GovernanceClause) → goes_first a b ≡ false → a.0 ≤ b.0
unfolding goes_first
after_le (m, c) (n, d) h = ground arith

insert-Descending :
    (a : ℕ × GovernanceClause) (es : List (ℕ × GovernanceClause))
    → Descending es
    → Descending (insert_scored a es)
unfolding insert_scored
insert-Descending a [] h = (tt, tt)
insert-Descending a (b ∷ bs) h = elim (Bool-cases (goes_first a b)) [
  | inl e ↦ rw e (
    (
      first_le a b e,
      All-map (λ d. d.0 ≤ b.0) (λ d. d.0 ≤ a.0) bs (λ d k. omega (arith, k, first_le a b e)) h.0,
    ),
    h,
  )
  | inr e ↦ rw e (insert-All (λ d. d.0 ≤ b.0) a bs (after_le a b e) h.0, insert-Descending a bs h.1)
]

pub sort-Descending :
    (preset role : Option String) (cs : List GovernanceClause)
    → Descending (sort_scored preset role cs)
unfolding sort_scored
sort-Descending preset role [] = tt
sort-Descending preset role (c ∷ cs) =
    insert-Descending (score preset role c, c) (sort_scored preset role cs)
      (sort-Descending preset role cs)

-- The ranked clauses are those of the list, each with its score.
pub sort-All :
    (preset role : Option String) (P : ℕ × GovernanceClause → Type 0) (cs : List GovernanceClause)
    → All (λ c. P (score preset role c, c)) cs
    → All P (sort_scored preset role cs)
unfolding sort_scored
sort-All preset role P [] h = tt
sort-All preset role P (c ∷ cs) h =
    insert-All P (score preset role c, c) (sort_scored preset role cs) h.0
      (sort-All preset role P cs h.1)

Has-insert :
    (a e : ℕ × GovernanceClause) (es : List (ℕ × GovernanceClause))
    → (a ≡ e) ⊎ Has e es
    → Has e (insert_scored a es)
unfolding insert_scored
Has-insert a e [] h = h
Has-insert a e (b ∷ bs) h = elim (Bool-cases (goes_first a b)) [
  | inl q ↦ rw q h
  | inr q ↦ rw q (elim h [
    | inl r ↦ inr (Has-insert a e bs (inl r))
    | inr (inl r) ↦ inl r
    | inr (inr m) ↦ inr (Has-insert a e bs (inr m))
  ])
]

pub Has-sort :
    (preset role : Option String) (c : GovernanceClause) (cs : List GovernanceClause)
    → Has c cs
    → Has (score preset role c, c) (sort_scored preset role cs)
unfolding sort_scored
Has-sort preset role c [] m = elim m [ ]
Has-sort preset role c (d ∷ cs) (inl e) =
    Has-insert (score preset role d, d) (score preset role c, c) (sort_scored preset role cs)
      (inl (ap (λ x. (score preset role x, x)) e))
Has-sort preset role c (d ∷ cs) (inr m) =
    Has-insert (score preset role d, d) (score preset role c, c) (sort_scored preset role cs)
      (inr (Has-sort preset role c cs m))
