-- ===== src/Locks/Traces.antt =====
-- Sequences of calls of src/dir_core/resource_lock.py, for whole amounts.
use decision_intelligence_ru.Prelude.{
  All, Bool, Bool-cases, List, String, [], ap, arith, false, inl, inr, map, mem, refl, ℕ, ◌==◌, ◌∙◌,
  ◌∷◌, ◌≡◌, ◌≤◌,
}
use decision_intelligence_ru.Dict
use decision_intelligence_ru.Dict.{Dict}
use decision_intelligence_ru.Python.{Prims}
use decision_intelligence_ru.Locks.{Locks, acquire, release}
use decision_intelligence_ru.Locks.Whole.{
  DistinctFlows, Exact, pop-whole_locks, total-pop, units, whole_amounts, whole_locks,
}
use decision_intelligence_ru.Locks.Capacity.{IsSound, acquire-IsSound, provider}

-- A call of the manager, with amounts of a type; an acquire has the answers of the backend in its
-- turns.
pub data Call (A : Type 0) : Type 0 where
  reserve : String → Dict A → List Bool → Call A
  free : String → Call A

-- The amounts that a call asks for are within the bound.
abbrev pub IsFair : ℕ → Call ℕ → Type 0
IsFair bound (reserve dfid r rounds) = (rid : String) → units rid r ≤ bound
IsFair bound (free dfid) = Unit

mem-keys-pop :
    (j d : String) (m : Dict (Dict ℕ))
    → mem j (Dict.keys m) ≡ false
    → mem j (Dict.keys (Dict.pop d m)) ≡ false
unfolding mem Dict.keys Dict.pop
mem-keys-pop j d [] h = refl
mem-keys-pop j d ((i, w) ∷ m) h = ground (arith, mem-keys-pop j d m)

DistinctFlows-pop :
    (d : String) (m : Dict (Dict ℕ)) → DistinctFlows m → DistinctFlows (Dict.pop d m)
unfolding Dict.pop
DistinctFlows-pop d [] h = tt
DistinctFlows-pop d ((j, w) ∷ m) h = elim (Bool-cases (j == d)) [
  | inl e ↦ rw e (DistinctFlows-pop d m h.1)
  | inr e ↦ rw e (mem-keys-pop j d m h.0, DistinctFlows-pop d m h.1)
]

module _ {F : Type 0} ⦃p : Prims F⦄ where
  unfoldable pub call : (String → F) → Locks F → Call F → Locks F
  call available locks (reserve dfid resources rounds) =
      (acquire available dfid resources rounds locks).0
  call available locks (free dfid) = release dfid locks

  unfoldable pub calls : (String → F) → Locks F → List (Call F) → Locks F
  calls available locks [] = locks
  calls available locks (c ∷ cs) = calls available (call available locks c) cs

  abbrev pub whole_call : Call ℕ → Call F
  whole_call (reserve dfid r rounds) = reserve dfid (whole_amounts r) rounds
  whole_call (free dfid) = free dfid

  module _ (bound : ℕ) (x : Exact p bound) (available : String → ℕ)
      (limited : (rid : String) → available rid ≤ bound) where
    release-IsSound :
        (dfid : String) (m : Dict (Dict ℕ))
        → IsSound available m
        → IsSound available (Dict.pop dfid m)
    release-IsSound dfid m s = record {
      distinct = DistinctFlows-pop dfid m s.distinct;
      within = λ rid. omega (arith, total-pop rid dfid m, s.within rid);
    }

    -- From locks that are sound, no sequence of acquires and releases, one after the other, ever
    -- locks more of a resource than is available, where all amounts are whole numbers, of a unit,
    -- that are not negative and within a bound up to which float arithmetic is exact: the locks that
    -- are left are such numbers, and of each resource all flows together hold at most what is
    -- available.
    pub calls-IsSound :
        (m : Dict (Dict ℕ)) (cs : List (Call ℕ))
        → All (IsFair bound) cs
        → IsSound available m
        → (m' : Dict (Dict ℕ)) × (calls
              (provider bound x available limited)
              (whole_locks m)
              (map whole_call cs)
            ≡ whole_locks m')
          × IsSound available m'
    unfolding calls call release
    calls-IsSound m [] fair s = (m, refl, s)
    calls-IsSound m (reserve dfid r rounds ∷ cs) fair s =
        let (m1, e, s1) = acquire-IsSound bound x available limited dfid r rounds m fair.0 s in
        let (m2, q, s2) = calls-IsSound m1 cs fair.1 s1 in
        (m2, ap (λ l. calls (provider bound x available limited) l (map whole_call cs)) e ∙ q, s2)
    calls-IsSound m (free dfid ∷ cs) fair s =
        let (m2, q, s2) = calls-IsSound (Dict.pop dfid m) cs fair.1 (release-IsSound dfid m s) in
        (
          m2,
          ap (λ l. calls (provider bound x available limited) l (map whole_call cs))
                (pop-whole_locks dfid m)
              ∙ q,
          s2,
        )
