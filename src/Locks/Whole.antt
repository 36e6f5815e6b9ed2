-- ===== src/Locks/Whole.antt =====
-- Locks of src/dir_core/resource_lock.py of which the amounts are whole numbers of a unit, up to a
-- bound below which float arithmetic is exact, as it is up to 2 ^ 53.
use decision_intelligence_ru.Prelude.{
  Bool-cases, List, String, [], arith, ap, eq_iff, false, if◌then◌else◌, inl, inr, ltb, map, mem,
  or_else, pos, refl, sym, ℕ, ◌+◌, ◌-◌, ◌==◌, ◌∙◌, ◌∷◌, ◌≡◌, ◌≤◌,
}
use decision_intelligence_ru.Dict
use decision_intelligence_ru.Dict.{Dict}
use decision_intelligence_ru.Python.{Prims}
use decision_intelligence_ru.Locks.{Locks, amount, get_locked_amount, held}

abbrev pub sum_ℕ : List ℕ → ℕ
sum_ℕ [] = 0
sum_ℕ (n ∷ ns) = n + sum_ℕ ns

-- The floats of whole numbers, and what IEEE arithmetic does with those up to a bound.
pub record Exact {F : Type 0} (p : Prims F) (bound : ℕ) : Type 0 where
  pub zero_exact : p.dec 0 0 ≡ p.of_int (pos 0)
  pub sum_exact :
      (ns : List ℕ)
      → sum_ℕ ns ≤ bound
      → p.sum (map (λ n. p.of_int (pos n)) ns) ≡ p.of_int (pos (sum_ℕ ns))
  pub sub_exact :
      (a b : ℕ)
      → a ≤ bound
      → b ≤ a
      → p.sub (p.of_int (pos a)) (p.of_int (pos b)) ≡ p.of_int (pos (a - b))
  pub lt_exact :
      (a b : ℕ) → a ≤ bound → b ≤ bound → p.lt (p.of_int (pos a)) (p.of_int (pos b)) ≡ ltb a b

-- a number of units, 0 where the resource is not named
unfoldable pub units : String → Dict ℕ → ℕ
units rid m = or_else (Dict.get rid m) 0

-- what the flows but one have of a resource
unfoldable pub units_held : String → String → Dict (Dict ℕ) → List ℕ
units_held rid exclude [] = []
units_held rid exclude ((d, m) ∷ rest) =
    let others = units_held rid exclude rest in
    if d == exclude then others else units rid m ∷ others

-- what all flows together have of a resource
unfoldable pub total : String → Dict (Dict ℕ) → ℕ
total rid [] = 0
total rid ((d, m) ∷ rest) = units rid m + total rid rest

-- No flow stands twice, as in a dict.
abbrev pub DistinctFlows : Dict (Dict ℕ) → Type 0
DistinctFlows [] = Unit
DistinctFlows ((d, m) ∷ rest) = (mem d (Dict.keys rest) ≡ false) × DistinctFlows rest

pub held-le-total : (rid d : String) (m : Dict (Dict ℕ)) → sum_ℕ (units_held rid d m) ≤ total rid m
unfolding units_held total
held-le-total rid d [] = omega arith
held-le-total rid d ((j, w) ∷ m) = elim (Bool-cases (j == d)) [
  | inl e ↦ rw e (omega (arith, held-le-total rid d m))
  | inr e ↦ rw e (omega (arith, held-le-total rid d m))
]

held_absent :
    (rid d : String) (m : Dict (Dict ℕ))
    → mem d (Dict.keys m) ≡ false
    → sum_ℕ (units_held rid d m) ≡ total rid m
unfolding units_held total Dict.keys mem
held_absent rid d [] h = refl
held_absent rid d ((j, w) ∷ m) h = ground (arith, held_absent rid d m)

-- What a flow's write makes of the total: what the others have, and what the flow now has.
pub total-set :
    (rid d : String) (r : Dict ℕ) (m : Dict (Dict ℕ))
    → DistinctFlows m
    → total rid (Dict.set d r m) ≡ units rid r + sum_ℕ (units_held rid d m)
unfolding units_held total Dict.set
total-set rid d r [] h = refl
total-set rid d r ((j, w) ∷ m) h = elim (Bool-cases (j == d)) [
  | inl e ↦
      rw e (ap (λ x. units rid r + x) (sym (held_absent rid d m (rw ((eq_iff j d).0 e) at (h.0)))))
  | inr e ↦ rw (e, total-set rid d r m h.1) (omega arith)
]

pub total-pop : (rid d : String) (m : Dict (Dict ℕ)) → total rid (Dict.pop d m) ≤ total rid m
unfolding total Dict.pop
total-pop rid d [] = omega arith
total-pop rid d ((j, w) ∷ m) = elim (Bool-cases (j == d)) [
  | inl e ↦ rw e (omega (arith, total-pop rid d m))
  | inr e ↦ rw e (omega (arith, total-pop rid d m))
]

module _ {F : Type 0} ⦃p : Prims F⦄ where
  abbrev pub whole : ℕ → F
  whole n = p.of_int (pos n)

  unfoldable pub whole_amounts : Dict ℕ → Dict F
  whole_amounts [] = []
  whole_amounts ((rid, n) ∷ m) = (rid, whole n) ∷ whole_amounts m

  unfoldable pub whole_locks : Dict (Dict ℕ) → Locks F
  whole_locks [] = []
  whole_locks ((d, m) ∷ rest) = (d, whole_amounts m) ∷ whole_locks rest

  pub set-whole_locks :
      (d : String) (r : Dict ℕ) (m : Dict (Dict ℕ))
      → Dict.set d (whole_amounts r) (whole_locks m) ≡ whole_locks (Dict.set d r m)
  unfolding whole_locks Dict.set
  set-whole_locks d r [] = refl
  set-whole_locks d r ((j, w) ∷ m) = elim (Bool-cases (j == d)) [
    | inl e ↦ rw e refl
    | inr e ↦ rw e (ap (λ x. (j, whole_amounts w) ∷ x) (set-whole_locks d r m))
  ]

  pub pop-whole_locks :
      (d : String) (m : Dict (Dict ℕ)) → Dict.pop d (whole_locks m) ≡ whole_locks (Dict.pop d m)
  unfolding whole_locks Dict.pop
  pop-whole_locks d [] = refl
  pop-whole_locks d ((j, w) ∷ m) = elim (Bool-cases (j == d)) [
    | inl e ↦ rw e (pop-whole_locks d m)
    | inr e ↦ rw e (ap (λ x. (j, whole_amounts w) ∷ x) (pop-whole_locks d m))
  ]

  module _ (bound : ℕ) (x : Exact p bound) where
    pub amount-whole :
        (rid : String) (m : Dict ℕ) → amount rid (whole_amounts m) ≡ whole (units rid m)
    unfolding amount units whole_amounts Dict.get
    amount-whole rid [] = x.zero_exact
    amount-whole rid ((j, n) ∷ m) = elim (Bool-cases (j == rid)) [
      | inl e ↦ rw e refl
      | inr e ↦ rw e (amount-whole rid m)
    ]

    held-whole :
        (rid d : String) (m : Dict (Dict ℕ))
        → held rid d (whole_locks m) ≡ map whole (units_held rid d m)
    unfolding held units_held whole_locks
    held-whole rid d [] = refl
    held-whole rid d ((j, w) ∷ m) = elim (Bool-cases (j == d)) [
      | inl e ↦ rw e (held-whole rid d m)
      | inr e ↦ rw (e, amount-whole rid w, held-whole rid d m) refl
    ]

    pub locked-whole :
        (rid d : String) (m : Dict (Dict ℕ))
        → sum_ℕ (units_held rid d m) ≤ bound
        → get_locked_amount rid d (whole_locks m) ≡ whole (sum_ℕ (units_held rid d m))
    unfolding get_locked_amount
    locked-whole rid d m h = ap p.sum (held-whole rid d m) ∙ x.sum_exact (units_held rid d m) h

pub keys-whole_amounts :
    (F : Type 0) ⦃p : Prims F⦄ (m : Dict ℕ) → Dict.keys (whole_amounts ⦃p = p⦄ m) ≡ Dict.keys m
unfolding whole_amounts Dict.keys
keys-whole_amounts F [] = refl
keys-whole_amounts F ((rid, n) ∷ m) = ap (◌∷◌ rid) (keys-whole_amounts F m)
