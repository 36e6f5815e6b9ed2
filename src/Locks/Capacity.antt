-- ===== src/Locks/Capacity.antt =====
-- Reservations of src/dir_core/resource_lock.py never exceed what is available, one call at a time,
-- for whole amounts.
use decision_intelligence_ru.Prelude.{
  Bool, Bool-cases, Has, List, String, [], ap, arith, eq_iff, eq_refl, false, inl, inr, ltb, mem,
  refl, subst, sym, true, ℕ, ◌+◌, ◌-◌, ◌<◌, ◌==◌, ◌∙◌, ◌∷◌, ◌≡◌, ◌≢◌, ◌≤◌, ◌⊎◌,
}
use decision_intelligence_ru.Dict
use decision_intelligence_ru.Dict.{Dict}
use decision_intelligence_ru.Python.{Prims}
use decision_intelligence_ru.Python.Text.{insert_text, sort_texts, text_le}
use decision_intelligence_ru.Locks.{
  Locks, acquire, acquire_batch, acquire_rounds, all_available, amount, get_locked_amount, short,
}
use decision_intelligence_ru.Locks.Whole.{
  DistinctFlows, Exact, amount-whole, held-le-total, keys-whole_amounts, locked-whole,
  set-whole_locks, sum_ℕ, total, total-set, units, units_held, whole, whole_amounts, whole_locks,
}

-- No flow stands twice, and no resource is locked beyond what is available.
pub record IsSound (available : String → ℕ) (m : Dict (Dict ℕ)) : Type 0 where
  pub distinct : DistinctFlows m
  pub within : (rid : String) → total rid m ≤ available rid

insert-Has : (a b : String) (bs : List String) → (b ≡ a) ⊎ Has a bs → Has a (insert_text b bs)
unfolding insert_text
insert-Has a b [] h = h
insert-Has a b (c ∷ bs) h = elim (Bool-cases (text_le b c)) [
  | inl e ↦ rw e h
  | inr e ↦ rw e (elim h [
    | inl q ↦ inr (insert-Has a b bs (inl q))
    | inr (inl q) ↦ inl q
    | inr (inr m) ↦ inr (insert-Has a b bs (inr m))
  ])
]

sort-Has : (a : String) (bs : List String) → Has a bs → Has a (sort_texts bs)
unfolding sort_texts
sort-Has a [] h = h
sort-Has a (b ∷ bs) (inl e) = insert-Has a b (sort_texts bs) (inl e)
sort-Has a (b ∷ bs) (inr m) = insert-Has a b (sort_texts bs) (inr (sort-Has a bs m))

key-or-zero : (rid : String) (m : Dict ℕ) → Has rid (Dict.keys m) ⊎ (units rid m ≡ 0)
unfolding units Dict.get Dict.keys
key-or-zero rid [] = inr refl
key-or-zero rid ((j, v) ∷ m) = elim (Bool-cases (j == rid)) [
  | inl e ↦ inl (inl ((eq_iff j rid).0 e))
  | inr e ↦ elim (key-or-zero rid m) [ inl h ↦ inl (inr h) | inr z ↦ inr (rw e z) ]
]

mem-keys-set :
    (j d : String) (r : Dict ℕ) (m : Dict (Dict ℕ))
    → (d == j) ≡ false
    → mem j (Dict.keys m) ≡ false
    → mem j (Dict.keys (Dict.set d r m)) ≡ false
unfolding mem Dict.keys Dict.set
mem-keys-set j d r [] e h = ground arith
mem-keys-set j d r ((i, w) ∷ m) e h = ground (arith, mem-keys-set j d r m)

DistinctFlows-set :
    (d : String) (r : Dict ℕ) (m : Dict (Dict ℕ)) → DistinctFlows m → DistinctFlows (Dict.set d r m)
unfolding Dict.set
DistinctFlows-set d r [] h = unfold mem Dict.keys in (refl, tt)
DistinctFlows-set d r ((j, w) ∷ m) h = elim (Bool-cases (j == d)) [
  | inl e ↦ rw e h
  | inr e ↦ rw e (
    mem-keys-set j d r m (ground (arith, eq_iff j d, eq_iff d j)) h.0,
    DistinctFlows-set d r m h.1,
  )
]

module _ {F : Type 0} ⦃p : Prims F⦄ (bound : ℕ) (x : Exact p bound) (available : String → ℕ)
    (limited : (rid : String) → available rid ≤ bound) where
  -- the availability provider of whole amounts
  abbrev pub provider : String → F
  provider rid = whole (available rid)

  pub short-whole :
      (dfid : String) (r : Dict ℕ) (m : Dict (Dict ℕ)) (rid : String)
      → units rid r ≤ bound
      → total rid m ≤ available rid
      → short provider dfid (whole_amounts r) (whole_locks m) rid
        ≡ ltb (available rid - sum_ℕ (units_held rid dfid m)) (units rid r)
  unfolding short
  short-whole dfid r m rid fair within =
      let few : sum_ℕ (units_held rid dfid m) ≤ available rid =
        omega (arith, held-le-total rid dfid m, within) in
      let least : sum_ℕ (units_held rid dfid m) ≤ bound = omega (arith, few, limited rid) in
      ap (λ l. p.lt (p.sub (whole (available rid)) l) (amount rid (whole_amounts r)))
        (locked-whole bound x rid dfid m least)
      ∙ ap (λ l. p.lt l (amount rid (whole_amounts r)))
          (x.sub_exact (available rid) (sum_ℕ (units_held rid dfid m)) (limited rid) few)
      ∙ ap (λ l. p.lt (whole (available rid - sum_ℕ (units_held rid dfid m))) l)
          (amount-whole bound x rid r)
      ∙ x.lt_exact (available rid - sum_ℕ (units_held rid dfid m)) (units rid r)
          (omega (arith, limited rid)) fair

  not_short :
      (dfid : String) (resources : Dict F) (locks : Locks F) (rids : List String) (rid : String)
      → all_available provider dfid resources locks rids ≡ true
      → Has rid rids
      → short provider dfid resources locks rid ≡ false
  unfolding all_available
  not_short dfid resources locks [] rid h m = elim m [ ]
  not_short dfid resources locks (r ∷ rids) rid h (inl e) =
      subst (λ z. short provider dfid resources locks z ≡ false) e (ground arith)
  not_short dfid resources locks (r ∷ rids) rid h (inr m) =
      not_short dfid resources locks rids rid (ground arith) m

  fits :
      (dfid : String) (r : Dict ℕ) (m : Dict (Dict ℕ)) (rid : String)
      → ((id : String) → units id r ≤ bound)
      → IsSound available m
      → all_available provider dfid (whole_amounts r) (whole_locks m) (sort_texts (Dict.keys r))
        ≡ true
      → units rid r + sum_ℕ (units_held rid dfid m) ≤ available rid
  fits dfid r m rid fair s h = elim (key-or-zero rid r) [
    | inl k ↦
        let tested =
          sym (short-whole dfid r m rid (fair rid) (s.within rid))
          ∙ not_short dfid (whole_amounts r) (whole_locks m) (sort_texts (Dict.keys r)) rid h
              (sort-Has rid (Dict.keys r) k) in
        ground (arith, held-le-total rid dfid m, s.within rid)
    | inr z ↦ rw z (omega (arith, held-le-total rid dfid m, s.within rid))
  ]

  -- The locks that are left are whole and sound.
  abbrev pub Leaves : Locks F → Type 0
  Leaves locks = (m : Dict (Dict ℕ)) × (locks ≡ whole_locks m) × IsSound available m

  rounds-IsSound :
      (dfid : String) (r : Dict ℕ) (rounds : List Bool) (m : Dict (Dict ℕ))
      → ((id : String) → units id r ≤ bound)
      → IsSound available m
      → Leaves
          (acquire_rounds provider dfid
            (whole_amounts r)
            (sort_texts (Dict.keys r))
            rounds
            (whole_locks m)).0
  unfolding acquire_rounds acquire_batch
  rounds-IsSound dfid r [] m fair s = (m, refl, s)
  rounds-IsSound dfid r (granted ∷ rounds) m fair s =
      elim (Bool-cases (
        all_available provider dfid (whole_amounts r) (whole_locks m) (sort_texts (Dict.keys r)))) [
          | inr e ↦ rw e (m, refl, s)
          | inl e ↦ rw e (elim (Bool-cases granted) [
            | inr g ↦ rw g (rounds-IsSound dfid r rounds m fair s)
            | inl g ↦ rw g (
              Dict.set dfid r m,
              set-whole_locks dfid r m,
              record {
                distinct = DistinctFlows-set dfid r m s.distinct;
                within = λ rid. rw (total-set rid dfid r m s.distinct) (fits dfid r m rid fair s e);
              },
            )
          ])
        ]

  -- From sound locks, an `acquire` leaves sound locks, whatever it answers and however often the
  -- backend defers it.
  pub acquire-IsSound :
      (dfid : String) (r : Dict ℕ) (rounds : List Bool) (m : Dict (Dict ℕ))
      → ((id : String) → units id r ≤ bound)
      → IsSound available m
      → Leaves (acquire provider dfid (whole_amounts r) rounds (whole_locks m)).0
  unfolding acquire
  acquire-IsSound dfid r rounds m fair s =
      rw (keys-whole_amounts F r) (rounds-IsSound dfid r rounds m fair s)

other_text : {a b : String} → a ≢ b → (a == b) ≡ false
other_text {a = a} {b = b} n = ground (arith, eq_iff a b)

module _ {F : Type 0} ⦃p : Prims F⦄ (bound : ℕ) (x : Exact p bound) where
  alone :
      (rid d : String) (a room : ℕ)
      → a ≤ room
      → room ≤ bound
      → all_available {F = F} (λ r. whole room) d ((rid, whole a) ∷ []) [] (rid ∷ []) ≡ true
  unfolding all_available
  alone rid d a room h low =
      let one : units rid ((rid, a) ∷ []) ≡ a =
        unfold units Dict.get in ground (arith, eq_refl rid) in
      let tested : short {F = F} (λ r. whole room) d ((rid, whole a) ∷ []) [] rid ≡ ltb room a =
        unfold whole_amounts whole_locks units_held total in
        (short-whole bound x (λ r. room) (λ r. low) d ((rid, a) ∷ []) [] rid
            (rw one (omega (arith, h, low))) (omega arith)
          ∙ rw one (ap (λ z. ltb z a) (omega arith))) in
      ground (arith, tested)

  both_locked :
      (rid d e f : String) (a b : ℕ)
      → (d == e) ≡ false
      → (d == f) ≡ false
      → (e == f) ≡ false
      → a + b ≤ bound
      → get_locked_amount {F = F} rid f
          (acquire_batch e ((rid, whole b) ∷ []) (acquire_batch d ((rid, whole a) ∷ []) []))
        ≡ whole (a + b)
  both_locked rid d e f a b de df ef low =
      let m : Dict (Dict ℕ) = (d, (rid, a) ∷ []) ∷ (e, (rid, b) ∷ []) ∷ [] in
      let state : acquire_batch {F = F} e ((rid, whole b) ∷ [])
            (acquire_batch d ((rid, whole a) ∷ []) [])
          ≡ whole_locks m =
        unfold acquire_batch Dict.set whole_locks whole_amounts in rw de refl in
      let both : sum_ℕ (units_held rid f m) ≡ a + b =
        unfold units_held units Dict.get in ground (arith, df, ef, eq_refl rid) in
      ap (get_locked_amount rid f) state
      ∙ locked-whole bound x rid f m (rw both low)
      ∙ ap whole both

-- Two flows that both check before either writes are both granted: where the two amounts fit one by
-- one and not together, as whole numbers within the bound of exact arithmetic, what a third flow then
-- sees locked exceeds what is available.
pub check_write_race :
    {F : Type 0} ⦃p : Prims F⦄ (bound : ℕ) (x : Exact p bound) (rid d e f : String) (a b room : ℕ)
    → d ≢ e
    → d ≢ f
    → e ≢ f
    → a ≤ room
    → b ≤ room
    → room < a + b
    → a + b ≤ bound
    → (all_available {F = F} (λ r. whole room) d ((rid, whole a) ∷ []) [] (rid ∷ []) ≡ true)
      × (all_available {F = F} (λ r. whole room) e ((rid, whole b) ∷ []) [] (rid ∷ []) ≡ true)
      × (get_locked_amount {F = F} rid f
            (acquire_batch e ((rid, whole b) ∷ []) (acquire_batch d ((rid, whole a) ∷ []) []))
          ≡ whole (a + b))
      × (p.lt (whole room) (whole (a + b)) ≡ true)
check_write_race bound x rid d e f a b room n nf mf ha hb over low = (
  alone bound x rid d a room ha (omega arith),
  alone bound x rid e b room hb (omega arith),
  both_locked bound x rid d e f a b (other_text n) (other_text nf) (other_text mf) low,
  x.lt_exact room (a + b) (omega arith) low ∙ ground arith,
)
