-- ===== src/Governance/Clauses/Selected.antt =====
-- What the selection of clauses keeps to.
use decision_intelligence_ru.Prelude.{
  All, Bool-cases, Has, List, Option, String, [], ap, arith, eq_iff, eq_refl, false, subst, ◌||◌,
  ◌==◌, inl, inr, keep, length, length-append, mem, not, refl, suc, sym, take, true, zero, ℕ, ◌++◌,
  ◌+◌, ◌∙◌, ◌∷◌, ◌≡◌, ◌≤◌, ◌⊎◌,
}
use decision_intelligence_ru.Governance.{GovernanceClause, GovernanceContextPack}
use decision_intelligence_ru.Governance.Clauses.Ranked.{
  Descending, Has-sort, sort-All, sort-Descending,
}
use decision_intelligence_ru.Governance.Clauses.{
  Choice, choice, choose, clause_ids, fits, fundamentals, score, select_clauses, select_loop, skip,
  sort_scored, stop,
}
use mathlib.Core.List.{append-nil, append_assoc}

-- clauses from the list, in its order or not, that fit, with ids that are not seen
abbrev pub IsExtra : Option String → Option String → List String → GovernanceClause → Type 0
IsExtra preset role seen c = (fits preset role c ≡ true) × (mem c.clause_id seen ≡ false)

weaken :
    (preset role : Option String) (id : String) (seen : List String) (cs : List GovernanceClause)
    → All (IsExtra preset role (id ∷ seen)) cs
    → All (IsExtra preset role seen) cs
unfolding mem
weaken preset role id seen [] h = tt
weaken preset role id seen (c ∷ cs) h = ((h.0.0, ground arith), weaken preset role id seen cs h.1)

Choice-cases : (c : Choice) → (c ≡ skip) ⊎ ((c ≡ stop) ⊎ (c ≡ choose))
Choice-cases skip = inl refl
Choice-cases stop = inr (inl refl)
Choice-cases choose = inr (inr refl)

chosen :
    (preset role : Option String) (m : ℕ) (seen : List String) (selected : List GovernanceClause)
    (c : GovernanceClause)
    → choice preset role m seen selected c ≡ choose
    → (fits preset role c ≡ true) × (mem c.clause_id seen ≡ false) × (length selected + 1 ≤ m)
unfolding choice
chosen preset role m seen selected c h = ground arith

stopped :
    (preset role : Option String) (m : ℕ) (seen : List String) (selected : List GovernanceClause)
    (c : GovernanceClause)
    → choice preset role m seen selected c ≡ stop
    → m ≤ length selected
unfolding choice
stopped preset role m seen selected c h = ground arith

skipped :
    (preset role : Option String) (m : ℕ) (seen : List String) (selected : List GovernanceClause)
    (c : GovernanceClause)
    → choice preset role m seen selected c ≡ skip
    → fits preset role c ≡ true
    → mem c.clause_id seen ≡ true
unfolding choice
skipped preset role m seen selected c h f = ground arith

-- None of the clauses after a clause has a higher score.
abbrev pub ByScore : Option String → Option String → List GovernanceClause → Type 0
ByScore preset role [] = Unit
ByScore preset role (c ∷ cs) =
    All (λ d. score preset role d ≤ score preset role c) cs × ByScore preset role cs

-- What the loop appends: fitting clauses that were not seen, up to the greatest number.
abbrev pub Appended :
    Option String
    → Option String
    → ℕ
    → List String
    → List GovernanceClause
    → List (ℕ × GovernanceClause)
    → List GovernanceClause
    → Type 1
Appended preset role m seen selected ranked result =
    (extra : List GovernanceClause) × (result ≡ selected ++ extra)
    × All (IsExtra preset role seen) extra
    × (length selected ≤ m → length result ≤ m)
    × ((P : GovernanceClause → Type 0) → All (λ e. P e.1) ranked → All P extra)
    × (Descending ranked
        → All (λ e. e.0 ≡ score preset role e.1) ranked
        → ByScore preset role extra)

Appended-self :
    (preset role : Option String) (m : ℕ) (seen : List String) (selected : List GovernanceClause)
    (ranked : List (ℕ × GovernanceClause))
    → Appended preset role m seen selected ranked selected
Appended-self preset role m seen selected ranked =
    ([], sym (append-nil selected), tt, λ h. h, λ P h. tt, λ d k. tt)

below :
    (preset role : Option String) (s : ℕ) (c : GovernanceClause) (cs : List (ℕ × GovernanceClause))
    → s ≡ score preset role c
    → All (λ d. d.0 ≤ s) cs
    → All (λ e. e.0 ≡ score preset role e.1) cs
    → All (λ e. score preset role e.1 ≤ score preset role c) cs
below preset role s c [] e h k = tt
below preset role s c (d ∷ cs) e h k =
    (omega (arith, e, h.0, k.0), below preset role s c cs e h.1 k.1)

select_loop-Appended :
    (preset role : Option String) (m : ℕ) (seen : List String) (selected : List GovernanceClause)
    (cs : List (ℕ × GovernanceClause))
    → Appended preset role m seen selected cs (select_loop preset role m seen selected cs)
unfolding select_loop
select_loop-Appended preset role m seen selected [] = Appended-self preset role m seen selected []
select_loop-Appended preset role m seen selected ((s, c) ∷ cs) =
    elim (Choice-cases (choice preset role m seen selected c)) [
      | inl e ↦
          let (extra, q, ok, le, part, order) =
            select_loop-Appended preset role m seen selected cs in
          rw (e, select_loop) (extra, q, ok, le, λ P h. part P h.1, λ d k. order d.1 k.1)
      | inr (inl e) ↦ rw (e, select_loop) (Appended-self preset role m seen selected ((s, c) ∷ cs))
      | inr (inr e) ↦
          let (fit, new, room) = chosen preset role m seen selected c e in
          let (extra, q, ok, le, part, order) =
            select_loop-Appended preset role m (c.clause_id ∷ seen) (selected ++ c ∷ []) cs in
          rw (e, select_loop)
            (
              c ∷ extra,
              q ∙ append_assoc selected (c ∷ []) extra,
              ((fit, new), weaken preset role c.clause_id seen extra ok),
              λ h. le (omega (arith, length-append selected (c ∷ []), room)),
              λ P h. (h.0, part P h.1),
              λ d k. (
                part (λ x. score preset role x ≤ score preset role c)
                    (below preset role s c cs k.0 d.0 k.1),
                order d.1 k.1,
              ),
            )
    ]

mem-clause_ids :
    (id : String) (xs ys : List GovernanceClause)
    → mem id (clause_ids (xs ++ ys)) ≡ (mem id (clause_ids xs) || mem id (clause_ids ys))
unfolding clause_ids mem
mem-clause_ids id [] ys = refl
mem-clause_ids id (x ∷ xs) ys = ground (arith, mem-clause_ids id xs ys)

-- Every fitting clause is selected, at least another one of its id, or there is no room.
abbrev pub IsServed : ℕ → GovernanceClause → List GovernanceClause → Type 0
IsServed m c result = (mem c.clause_id (clause_ids result) ≡ true) ⊎ (m ≤ length result)

loop-keeps :
    (preset role : Option String) (m : ℕ) (seen : List String) (selected : List GovernanceClause)
    (cs : List (ℕ × GovernanceClause)) (id : String)
    → mem id (clause_ids selected) ≡ true
    → mem id (clause_ids (select_loop preset role m seen selected cs)) ≡ true
loop-keeps preset role m seen selected cs id h =
    let (extra, q, ok, le, part, order) = select_loop-Appended preset role m seen selected cs in
    ap (λ l. mem id (clause_ids l)) q ∙ mem-clause_ids id selected extra ∙ rw h refl

select_loop-serves :
    (preset role : Option String) (m : ℕ) (seen : List String) (selected : List GovernanceClause)
    (cs : List (ℕ × GovernanceClause)) (s : ℕ) (c : GovernanceClause)
    → ((id : String) → mem id seen ≡ true → mem id (clause_ids selected) ≡ true)
    → Has (s, c) cs
    → fits preset role c ≡ true
    → IsServed m c (select_loop preset role m seen selected cs)
unfolding select_loop
select_loop-serves preset role m seen selected [] s c known h f = elim h [ ]
select_loop-serves preset role m seen selected ((t, d) ∷ cs) s c known h f =
    elim (Choice-cases (choice preset role m seen selected d)) [
      | inl e ↦
          rw (e, select_loop)
            (elim h [
              | inl r ↦
                  let id : d ≡ c = ap (λ x. x.1) r in
                  inl (
                    loop-keeps preset role m seen selected cs c.clause_id (
                      known c.clause_id (
                        skipped preset role m seen selected c
                          (ap (choice preset role m seen selected) (sym id) ∙ e) f)))
              | inr n ↦ select_loop-serves preset role m seen selected cs s c known n f
            ])
      | inr (inl e) ↦ rw (e, select_loop) (inr (stopped preset role m seen selected d e))
      | inr (inr e) ↦
          let last : mem d.clause_id (clause_ids (selected ++ d ∷ [])) ≡ true =
            mem-clause_ids d.clause_id selected (d ∷ [])
            ∙ unfold clause_ids mem in ground (arith, eq_refl d.clause_id) in
          rw (e, select_loop)
            (elim h [
              | inl r ↦
                  let id : d ≡ c = ap (λ x. x.1) r in
                  inl (
                    loop-keeps preset role m (d.clause_id ∷ seen) (selected ++ d ∷ []) cs
                      c.clause_id
                      (subst (λ x. mem x.clause_id (clause_ids (selected ++ d ∷ [])) ≡ true) id
                        last))
              | inr n ↦
                  select_loop-serves preset role m (d.clause_id ∷ seen) (selected ++ d ∷ []) cs s c
                    (λ id k. elim (Bool-cases (d.clause_id == id)) [
                      | inl q ↦
                          subst (λ x. mem x (clause_ids (selected ++ d ∷ [])) ≡ true)
                            ((eq_iff d.clause_id id).0 q) last
                      | inr q ↦
                          mem-clause_ids id selected (d ∷ [])
                          ∙ rw
                              (known id (
                                let k' : (d.clause_id == id || mem id seen) ≡ true =
                                  unfold mem in k in
                                ground arith))
                              refl
                    ])
                    n f
            ])
    ]

take-all : (n : ℕ) (xs : List GovernanceClause) → length xs ≤ n → take n xs ≡ xs
unfolding take
take-all zero [] h = refl
take-all zero (x ∷ xs) h = absurd (ground arith)
take-all (suc n) [] h = refl
take-all (suc n) (x ∷ xs) h = ap (λ ys. x ∷ ys) (take-all n xs (ground arith))

-- the clauses of a pack that are not fundamental
abbrev pub optional : GovernanceContextPack → List GovernanceClause
optional pack = keep (λ c. not c.fundamental) pack.clauses

All-Has : (xs ys : List GovernanceClause) → All (λ c. Has c (xs ++ ys)) ys
All-Has xs [] = tt
All-Has xs (y ∷ ys) = (
  last xs y ys,
  subst (λ l. All (λ c. Has c l) ys) (append_assoc xs (y ∷ []) ys) (All-Has (xs ++ y ∷ []) ys),
)
  where
    last :
        (xs : List GovernanceClause) (y : GovernanceClause) (ys : List GovernanceClause)
        → Has y (xs ++ y ∷ ys)
    last [] y ys = inl refl
    last (x ∷ xs) y ys = inr (last xs y ys)

All-refl :
    (preset role : Option String) (cs : List GovernanceClause)
    → All (λ c. score preset role c ≡ score preset role c) cs
All-refl preset role [] = tt
All-refl preset role (c ∷ cs) = (refl, All-refl preset role cs)

-- Of no other preset or role, and then selected, or another one of its id, or there is no room.
abbrev pub IsTreated :
    Option String → Option String → ℕ → List GovernanceClause → GovernanceClause → Type 0
IsTreated preset role m result c = (fits preset role c ≡ false) ⊎ IsServed m c result

treated :
    (pack : GovernanceContextPack) (preset role : Option String) (m : ℕ)
    (result : List GovernanceClause) (cs : List GovernanceClause)
    → ((c : GovernanceClause) → Has c cs → fits preset role c ≡ true → IsServed m c result)
    → All (IsTreated preset role m result) cs
treated pack preset role m result [] h = tt
treated pack preset role m result (c ∷ cs) h = (
  elim (Bool-cases (fits preset role c)) [ inl e ↦ inr (h c (inl refl) e) | inr e ↦ inl e ],
  treated pack preset role m result cs (λ d n. h d (inr n)),
)

-- Where the fundamental clauses of a pack are no more than the greatest number, the selection is all
-- of them, in the pack's order, then optional clauses of the pack, by falling score, that are of no
-- other preset or role and of ids that no fundamental clause has; each optional clause of no other
-- preset or role is selected, or one of its id, or there is no room for it; and the selection is never
-- longer than that number.
pub select_clauses-fundamentals :
    (pack : GovernanceContextPack) (preset role : Option String) (m : ℕ)
    → length (fundamentals pack) ≤ m
    → (extra : List GovernanceClause) × (select_clauses pack preset role m
        ≡ fundamentals pack ++ extra)
      × All (IsExtra preset role (clause_ids (fundamentals pack))) extra
      × All (λ c. Has c (optional pack)) extra
      × ByScore preset role extra
      × All (IsTreated preset role m (select_clauses pack preset role m)) (optional pack)
      × (length (select_clauses pack preset role m) ≤ m)
unfolding select_clauses
select_clauses-fundamentals pack preset role m h =
    let ranked = sort_scored preset role (optional pack) in
    let (extra, q, ok, le, part, order) =
      select_loop-Appended preset role m (clause_ids (fundamentals pack)) (fundamentals pack)
        ranked in
    rw (take-all m _ (le h)) (
      extra,
      q,
      ok,
      part (λ c. Has c (optional pack))
          (sort-All preset role (λ e. Has e.1 (optional pack)) (optional pack)
            (All-Has [] (optional pack))),
      order (sort-Descending preset role (optional pack)) (
          sort-All preset role (λ e. e.0 ≡ score preset role e.1) (optional pack)
            (All-refl preset role (optional pack))),
      treated pack preset role m _ (optional pack) (λ c n f.
          select_loop-serves preset role m (clause_ids (fundamentals pack)) (fundamentals pack)
            ranked (score preset role c) c (λ id k. k) (Has-sort preset role c (optional pack) n)
            f),
      le h,
    )
