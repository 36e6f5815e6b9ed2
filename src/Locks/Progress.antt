-- ===== src/Locks/Progress.antt =====
-- When src/dir_core/resource_lock.py grants a request of whole amounts.
use decision_intelligence_ru.Prelude.{
  Bool, Has, List, String, [], ap, arith, eq_refl, false, false≢true, inl, inr, mem, refl, sym,
  true, ℕ, ◌+◌, ◌==◌, ◌||◌, ◌∙◌, ◌∷◌, ◌≡◌, ◌≤◌,
}
use decision_intelligence_ru.Dict
use decision_intelligence_ru.Dict.{Dict}
use decision_intelligence_ru.Python.{Prims}
use decision_intelligence_ru.Python.Text.{insert_text, sort_texts}
use decision_intelligence_ru.Locks.{
  Locks, acquire, acquire_batch, acquire_rounds, acquired, all_available, short,
}
use decision_intelligence_ru.Locks.Whole.{
  Exact, keys-whole_amounts, set-whole_locks, sum_ℕ, units, units_held, whole_amounts, whole_locks,
}
use decision_intelligence_ru.Locks.Capacity.{IsSound, provider, short-whole}

mem-insert_text :
    (a b : String) (xs : List String) → mem a (insert_text b xs) ≡ (b == a || mem a xs)
unfolding mem insert_text
mem-insert_text a b [] = refl
mem-insert_text a b (x ∷ xs) = ground (arith, mem-insert_text a b xs)

mem-sort_texts : (a : String) (xs : List String) → mem a (sort_texts xs) ≡ mem a xs
unfolding mem sort_texts
mem-sort_texts a [] = refl
mem-sort_texts a (x ∷ xs) =
    mem-insert_text a x (sort_texts xs) ∙ ap (λ b. x == a || b) (mem-sort_texts a xs)

-- What is asked of a resource and what others hold of it is available.
abbrev pub Fits : (String → ℕ) → String → Dict ℕ → Dict (Dict ℕ) → String → Type 0
Fits available dfid r m rid = units rid r + sum_ℕ (units_held rid dfid m) ≤ available rid

module _ {F : Type 0} ⦃p : Prims F⦄ where
  all_free :
      (available : String → F) (dfid : String) (resources : Dict F) (locks : Locks F)
      (rids : List String)
      → ((rid : String) → mem rid rids ≡ true → short available dfid resources locks rid ≡ false)
      → all_available available dfid resources locks rids ≡ true
  unfolding all_available mem
  all_free available dfid resources locks [] h = refl
  all_free available dfid resources locks (rid ∷ rids) h =
      rw (h rid (ground (arith, eq_refl rid)))
        (all_free available dfid resources locks rids (λ r m. h r (ground arith)))

  granted_rounds :
      (available : String → F) (dfid : String) (resources : Dict F) (rids : List String)
      (rounds : List Bool) (locks : Locks F)
      → all_available available dfid resources locks rids ≡ true
      → Has true rounds
      → acquire_rounds available dfid resources rids rounds locks
        ≡ (acquire_batch dfid resources locks, acquired)
  unfolding acquire_rounds
  granted_rounds available dfid resources rids [] locks h m = elim m [ ]
  granted_rounds available dfid resources rids (true ∷ rounds) locks h m = rw h refl
  granted_rounds available dfid resources rids (false ∷ rounds) locks h (inl e) =
      absurd (false≢true e)
  granted_rounds available dfid resources rids (false ∷ rounds) locks h (inr m) =
      rw h (granted_rounds available dfid resources rids rounds locks h m)

  module _ (bound : ℕ) (x : Exact p bound) (available : String → ℕ)
      (limited : (rid : String) → available rid ≤ bound) where
    -- From sound locks, a request of which every resource is available beside what other flows hold
    -- is granted whole as soon as the backend grants a write before the deadline, whatever refusals
    -- come first: the answer is ACQUIRED and exactly the request is written for the flow. All amounts
    -- are whole numbers, of a unit, that are not negative and within a bound up to which float
    -- arithmetic is exact.
    pub acquire-grants :
        (dfid : String) (r : Dict ℕ) (rounds : List Bool) (m : Dict (Dict ℕ))
        → IsSound available m
        → ((rid : String) → mem rid (Dict.keys r) ≡ true → Fits available dfid r m rid)
        → Has true rounds
        → acquire (provider bound x available limited) dfid (whole_amounts r) rounds (whole_locks m)
          ≡ (whole_locks (Dict.set dfid r m), acquired)
    unfolding acquire
    acquire-grants dfid r rounds m s h g =
        let free_of : (rid : String)
            → mem rid (sort_texts (Dict.keys r)) ≡ true
            → short (provider bound x available limited) dfid (whole_amounts r) (whole_locks m) rid
              ≡ false =
          λ rid k.
            let fit = h rid (sym (mem-sort_texts rid (Dict.keys r)) ∙ k) in
            short-whole bound x available limited dfid r m rid (omega (arith, fit, limited rid))
              (s.within rid)
            ∙ ground arith in
        rw (keys-whole_amounts F r) (
          granted_rounds (provider bound x available limited) dfid (whole_amounts r)
            (sort_texts (Dict.keys r)) rounds (whole_locks m)
            (all_free (provider bound x available limited) dfid (whole_amounts r) (whole_locks m)
              (sort_texts (Dict.keys r)) free_of)
            g
          ∙ unfold acquire_batch in ap (λ l. (l, acquired)) (set-whole_locks dfid r m))
