-- ===== src/InvariantCompile/Merge.antt =====
-- How a contract's explicit rules and the rules compiled from its other fields come together.
use decision_intelligence_ru.Prelude.{
  Bool, Bool-cases, Has, List, [], any, arith, eq_iff, false≢true, inl, inr, keep, refl, subst, sym,
  true, ◌++◌, ◌==◌, ◌↔◌, ◌∷◌, ◌≡◌, ◌⊎◌,
}
use decision_intelligence_ru.Python.{
  >>=-eq-ok, Fields, Prims, Value, dict_or_empty, get_field, list_or_empty, ok,
}
use decision_intelligence_ru.Models.{InvariantSpec, Pydantic}
use decision_intelligence_ru.InvariantCompile.{
  authority_of, compile_authority_invariants, compile_sugar_invariants, conflicts, merge_explicit,
  not_explicit, same_key, validate_explicit,
}

module _ {F : Type 0} where
  -- Two rules are one: they have one id, or one type and one field.
  abbrev pub IsSameRule : InvariantSpec F → InvariantSpec F → Type 0
  IsSameRule a b = (a.id ≡ b.id) ⊎ ((a.type ≡ b.type) × (a.field ≡ b.field))

  -- One of the rules listed is the same.
  abbrev pub IsCovered : List (InvariantSpec F) → InvariantSpec F → Type 0
  IsCovered listed s = (e : InvariantSpec F) × Has e listed × IsSameRule e s

  any-Has :
      (q : InvariantSpec F → Bool) (xs : List (InvariantSpec F))
      → any q xs ≡ true
      → (e : InvariantSpec F) × Has e xs × (q e ≡ true)
  any-Has q [] h = absurd (false≢true h)
  any-Has q (x ∷ xs) h = elim (Bool-cases (q x)) [
    | inl e ↦ (x, inl refl, e)
    | inr e ↦ let (y, m, k) = any-Has q xs (ground arith) in (y, inr m, k)
  ]

  Has-any :
      (q : InvariantSpec F → Bool) (x : InvariantSpec F) (xs : List (InvariantSpec F))
      → Has x xs
      → q x ≡ true
      → any q xs ≡ true
  Has-any q x [] m k = elim m [ ]
  Has-any q x (y ∷ xs) (inl e) k =
      let h : q y ≡ true = subst (λ z. q z ≡ true) (sym e) k in ground arith
  Has-any q x (y ∷ xs) (inr m) k = ground (arith, Has-any q x xs m k)

  keep-Has :
      (q : InvariantSpec F → Bool) (s : InvariantSpec F) (xs : List (InvariantSpec F))
      → Has s (keep q xs)
      → Has s xs × (q s ≡ true)
  unfolding keep
  keep-Has q s [] m = elim m [ ]
  keep-Has q s (x ∷ xs) m = elim (Bool-cases (q x)) [
    | inl e ↦ elim (rw e at m) [
      | inl r ↦ (inl r, subst (λ z. q z ≡ true) r e)
      | inr n ↦ let (k, l) = keep-Has q s xs n in (inr k, l)
    ]
    | inr e ↦ let (k, l) = keep-Has q s xs (rw e at m) in (inr k, l)
  ]

  Has-keep :
      (q : InvariantSpec F → Bool) (s : InvariantSpec F) (xs : List (InvariantSpec F))
      → Has s xs
      → q s ≡ true
      → Has s (keep q xs)
  unfolding keep
  Has-keep q s [] m h = elim m [ ]
  Has-keep q s (x ∷ xs) (inl e) h =
      let k : q x ≡ true = subst (λ z. q z ≡ true) (sym e) h in rw k (inl e)
  Has-keep q s (x ∷ xs) (inr m) h = elim (Bool-cases (q x)) [
    | inl e ↦ rw e (inr (Has-keep q s xs m h))
    | inr e ↦ rw e (Has-keep q s xs m h)
  ]

module _ {F : Type 0} ⦃p : Prims F⦄ where
  conflicts-IsCovered :
      (listed : List (InvariantSpec F)) (s : InvariantSpec F)
      → conflicts listed s ≡ true
      → IsCovered listed s
  unfolding conflicts
  conflicts-IsCovered listed s h = elim (Bool-cases (any (λ e. e.id == s.id) listed)) [
    | inl e ↦
        let (r, m, k) = any-Has (λ e. e.id == s.id) listed e in (r, m, inl ((eq_iff r.id s.id).0 k))
    | inr e ↦
        let (r, m, k) = any-Has (λ e. same_key e s) listed (ground arith) in
        (
          r,
          m,
          inr ((eq_iff r.type s.type).0 (ground arith), (eq_iff r.field s.field).0 (ground arith)),
        )
  ]

  IsCovered-conflicts :
      (listed : List (InvariantSpec F)) (s : InvariantSpec F)
      → IsCovered listed s
      → conflicts listed s ≡ true
  unfolding conflicts
  IsCovered-conflicts listed s (r, m, inl e) =
      ground (arith, Has-any (λ e. e.id == s.id) r listed m ((eq_iff r.id s.id).1 e))
  IsCovered-conflicts listed s (r, m, inr (t, f)) =
      let k : same_key r s ≡ true = ground (arith, eq_iff r.type s.type, eq_iff r.field s.field) in
      ground (arith, Has-any (λ e. same_key e s) r listed m k)

  kept_iff :
      (listed sugar : List (InvariantSpec F)) (s : InvariantSpec F)
      → Has s (keep (not_explicit listed) sugar) ↔ (Has s sugar × (IsCovered listed s → ⊥))
  unfolding not_explicit
  kept_iff listed sugar s = (
    λ m.
        let (k, l) = keep-Has (not_explicit listed) s sugar m in
        (k, λ c. absurd (ground (arith, IsCovered-conflicts listed s c))),
    λ (m, n). Has-keep (not_explicit listed) s sugar m (elim (Bool-cases (conflicts listed s)) [
      | inl e ↦ absurd (n (conflicts-IsCovered listed s e))
      | inr e ↦ ground arith
    ]),
  )

  -- The rules of a contract that compiles are those that its authority lists, validated, in their
  -- order and unchanged, and after them rules compiled from its other fields: each of these of which
  -- no listed rule has the id, or the type and the field, and no other.
  pub explicit-compile_authority_invariants :
      ⦃y : Pydantic F⦄ (contract : Fields F) (specs : List (InvariantSpec F))
      → compile_authority_invariants contract ≡ ok specs
      → (authority conditions : Fields F) × (raw : List (Value F)) × (explicit sugar kept : List
          (InvariantSpec F))
        × (authority_of contract ≡ ok authority)
        × (dict_or_empty (get_field "execution_conditions" contract) ≡ ok conditions)
        × (list_or_empty (get_field "invariants" authority) ≡ ok raw)
        × (validate_explicit raw ≡ ok explicit)
        × (compile_sugar_invariants authority conditions ≡ ok sugar)
        × (specs ≡ explicit ++ kept)
        × ((s : InvariantSpec F) → Has s kept ↔ (Has s sugar × (IsCovered explicit s → ⊥)))
  unfolding compile_authority_invariants merge_explicit
  explicit-compile_authority_invariants contract specs h =
      let (authority, a, h1) = >>=-eq-ok (authority_of contract) _ h in
      let (conditions, c, h2) =
        >>=-eq-ok (dict_or_empty (get_field "execution_conditions" contract)) _ h1 in
      let (raw, b, h3) = >>=-eq-ok (list_or_empty (get_field "invariants" authority)) _ h2 in
      let (explicit, v, h4) = >>=-eq-ok (validate_explicit raw) _ h3 in
      let (sugar, s, h5) = >>=-eq-ok (compile_sugar_invariants authority conditions) _ h4 in
      (
        authority,
        conditions,
        raw,
        explicit,
        sugar,
        keep (not_explicit explicit) sugar,
        a,
        c,
        b,
        v,
        s,
        cc,
        kept_iff explicit sugar,
      )
