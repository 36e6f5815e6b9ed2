-- ===== src/Governance/NamedAfter.antt =====
-- When an aggregate policy is named after a limit: `_aggregate_duplicates_limit_key` of
-- tools/contract/governance/validation.py.
use decision_intelligence_ru.Prelude.{
  Bool, Bool-cases, Has, List, String, [], any, arith, false≢true, inl, inr, not, refl, subst, sym,
  true, ◌&&◌, ◌==◌, ◌∷◌, ◌≡◌, ◌≢◌,
}
use decision_intelligence_ru.Python.Text.{contains}
use decision_intelligence_ru.Contract.Errors.{set_text, unset_text}
use decision_intelligence_ru.Governance.Authoring.{duplicates_lower, limit_tokens, stem}

-- A metric or a policy's id repeats the name of a limit, or its metric the limit's stem or token; all
-- in lower case.
pub data NamedAfter (key metric policy : String) : Type 0 where
  in_metric : contains key metric ≡ true → NamedAfter key metric policy
  in_policy : contains key policy ≡ true → NamedAfter key metric policy
  by_stem : stem key ≢ "" → contains (stem key) (stem metric) ≡ true → NamedAfter key metric policy
  by_token :
      (token : String)
      → Has token limit_tokens
      → contains token key ≡ true
      → contains token metric ≡ true
      → NamedAfter key metric policy

any-Has :
    (q : String → Bool) (xs : List String)
    → any q xs ≡ true
    → (x : String) × Has x xs × (q x ≡ true)
any-Has q [] h = absurd (false≢true h)
any-Has q (x ∷ xs) h = elim (Bool-cases (q x)) [
  | inl e ↦ (x, inl refl, e)
  | inr e ↦ let (y, m, k) = any-Has q xs (ground arith) in (y, inr m, k)
]

Has-any :
    (q : String → Bool) (x : String) (xs : List String) → Has x xs → q x ≡ true → any q xs ≡ true
Has-any q x [] m k = elim m [ ]
Has-any q x (y ∷ xs) (inl e) k =
    let h : q y ≡ true = subst (λ z. q z ≡ true) (sym e) k in ground arith
Has-any q x (y ∷ xs) (inr m) k = ground (arith, Has-any q x xs m k)

pub NamedAfter-duplicates_lower :
    (key metric policy : String)
    → NamedAfter key metric policy
    → duplicates_lower key metric policy ≡ true
unfolding duplicates_lower
NamedAfter-duplicates_lower key metric policy (in_metric h) = ground arith
NamedAfter-duplicates_lower key metric policy (in_policy h) = ground arith
NamedAfter-duplicates_lower key metric policy (by_stem n h) =
    ground (arith, unset_text (stem key) n)
NamedAfter-duplicates_lower key metric policy (by_token token m h k) =
    let q : contains token key && contains token metric ≡ true = ground arith in
    ground (arith, Has-any (λ t. contains t key && contains t metric) token limit_tokens m q)

pub duplicates_lower-NamedAfter :
    (key metric policy : String)
    → duplicates_lower key metric policy ≡ true
    → NamedAfter key metric policy
unfolding duplicates_lower
duplicates_lower-NamedAfter key metric policy h = elim (Bool-cases (contains key metric)) [
  | inl a ↦ in_metric a
  | inr a ↦ elim (Bool-cases (contains key policy)) [
    | inl b ↦ in_policy b
    | inr b ↦ elim (Bool-cases (not (stem key == "") && contains (stem key) (stem metric))) [
      | inl c ↦ by_stem (set_text (stem key) (ground arith)) (ground arith)
      | inr c ↦
          let (t, m, q) =
            any-Has (λ t. contains t key && contains t metric) limit_tokens (ground arith) in
          by_token t m (ground arith) (ground arith)
    ]
  ]
]
