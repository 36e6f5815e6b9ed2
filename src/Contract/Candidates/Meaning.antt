-- ===== src/Contract/Candidates/Meaning.antt =====
-- The range that a candidate's predicate becomes, against the predicate itself.
use decision_intelligence_ru.Prelude.{
  Bool, Bool-cases, Option, String, ap, arith, false, if◌then◌else◌, inl, inr, none, not, refl,
  some, subst, suc, sym, true, zero, ℕ, ◌&&◌, ◌==◌, ◌∙◌, ◌≡◌, ◌≤◌,
}
use decision_intelligence_ru.Python.{
  >>=-eq-ok, Prims, Res, Value, bool, datetime, dict, get_field, list, null, num, ok, raise, str,
  un_ok, ◌>>=◌,
}
use decision_intelligence_ru.Contract.Candidates.{
  Bounds, both_fields, collect, collect_bound, collect_leaf, is_and, lower_max, nesting, no_bounds,
  op_text, raise_min, same_field, variable_name,
}
use decision_intelligence_ru.Contract.Candidates.Fuel.{collect-fuel}
use decision_intelligence_ru.Contract.Candidates.Ranges.{
  bound_numbers, inside, inside-lower_max, inside-raise_min,
}

same_some :
    (x y : Option String) (f : String)
    → same_field x y ≡ some f
    → ((g : String) × (x ≡ some g)) × ((g : String) × (y ≡ some g))
unfolding same_field
same_some none y f h = cc
same_some (some x) none f h = cc
same_some (some x) (some y) f h = ((x, refl), (y, refl))

none≢some : {x : String} → none ≡ some x → ⊥
none≢some h = cc

abbrev pick {ℓ} : {A : Type ℓ} → Bool → Bool → A → A → A → A
pick a b x y z = if a then x else if b then y else z

and_sound : (l r : Bool) (x y : Bool) (z : Bool) → x ≡ (z && l) → y ≡ (x && r) → y ≡ (z && (l && r))
and_sound l r x y z h k = ground arith

module _ {F : Type 0} ⦃p : Prims F⦄ where
  -- The predicate at a number, as a Python reader of it would decide: each comparison of the tree holds.
  unfoldable pub leaf_holds : Value F → Value F → F → Bool
  leaf_holds (str op) (num x) v =
      if op == "ge" then not (p.lt v x) else if op == "le" then not (p.lt x v) else true
  leaf_holds _ _ v = true

  unfoldable pub holds : ℕ → Value F → F → Bool
  holds (suc n) (dict node) v =
      let both = holds n (get_field "left" node) v && holds n (get_field "right" node) v in
      if is_and node then both else leaf_holds (get_field "op" node) (get_field "value" node) v
  holds _ _ v = true

  -- none of the numbers compared with is a NaN
  unfoldable pub leaf_numbers : Value F → Bool
  leaf_numbers (num x) = p.eq x x
  leaf_numbers _ = true

  unfoldable pub numbers : ℕ → Value F → Bool
  numbers (suc n) (dict node) =
      let both = numbers n (get_field "left" node) && numbers n (get_field "right" node) in
      if is_and node then both else leaf_numbers (get_field "value" node)
  numbers _ _ = true

  abbrev found : Option String → Bounds F → Option String × Bounds F
  found name b = (name, b)

  leaf_case :
      (ge at_most : Bool) (name : String) (x : F) (b : Bounds F) (v : F) (f : String)
      (b' : Bounds F)
      → p.eq v v ≡ true
      → bound_numbers b ≡ true
      → p.eq x x ≡ true
      → pick ge at_most
          (found (some name) (raise_min x b))
          (found (some name) (lower_max x b))
          (found none b)
        ≡ found (some f) b'
      → (inside b' v ≡ (inside b v && pick ge at_most (not (p.lt v x)) (not (p.lt x v)) true))
        × (bound_numbers b' ≡ true)
  leaf_case true at_most name x b v f b' hv hb hx h =
      subst (λ c. (inside c v ≡ (inside b v && not (p.lt v x))) × (bound_numbers c ≡ true))
        (ap (λ r. r.1) h) (inside-raise_min b x v hv hx hb)
  leaf_case false true name x b v f b' hv hb hx h =
      subst (λ c. (inside c v ≡ (inside b v && not (p.lt x v))) × (bound_numbers c ≡ true))
        (ap (λ r. r.1) h) (inside-lower_max b x v hv hx hb)
  leaf_case false false name x b v f b' hv hb hx h = cc

  no_bound :
      (name : Option String) (value : Value F) (b : Bounds F)
      → collect_bound "" name value b ≡ (none, b)
  unfolding collect_bound
  no_bound none value b = refl
  no_bound (some name) null b = refl
  no_bound (some name) (num x) b = refl
  no_bound (some name) (bool x) b = refl
  no_bound (some name) (str x) b = refl
  no_bound (some name) (datetime x) b = refl
  no_bound (some name) (list x) b = refl
  no_bound (some name) (dict x) b = refl

  bound_holds :
      (op : String) (name : Option String) (value : Value F) (b : Bounds F) (v : F) (f : String)
      (b' : Bounds F)
      → p.eq v v ≡ true
      → bound_numbers b ≡ true
      → leaf_numbers value ≡ true
      → collect_bound op name value b ≡ (some f, b')
      → (inside b' v ≡ (inside b v && leaf_holds (str op) value v)) × (bound_numbers b' ≡ true)
  unfolding collect_bound leaf_holds leaf_numbers
  bound_holds op (some name) (num x) b v f b' hv hb hx h =
      leaf_case (op == "ge") (op == "le") name x b v f b' hv hb hx h
  bound_holds op none value b v f b' hv hb hx h = cc
  bound_holds op (some name) null b v f b' hv hb hx h = cc
  bound_holds op (some name) (bool x) b v f b' hv hb hx h = cc
  bound_holds op (some name) (str x) b v f b' hv hb hx h = cc
  bound_holds op (some name) (datetime x) b v f b' hv hb hx h = cc
  bound_holds op (some name) (list x) b v f b' hv hb hx h = cc
  bound_holds op (some name) (dict x) b v f b' hv hb hx h = cc

  no_op :
      (name value : Value F) (b : Bounds F) (f : String) (b' : Bounds F)
      → collect_bound "" (variable_name name) value b ≡ (some f, b')
      → ⊥
  no_op name value b f b' h =
      none≢some (sym (ap (λ r. r.0) (no_bound (variable_name name) value b)) ∙ ap (λ r. r.0) h)

  leaf_sound :
      (op name : Value F) (value : Value F) (b : Bounds F) (v : F) (f : String) (b' : Bounds F)
      → p.eq v v ≡ true
      → bound_numbers b ≡ true
      → leaf_numbers value ≡ true
      → (op_text op >>= λ o. ok (collect_bound o (variable_name name) value b)) ≡ ok (some f, b')
      → (inside b' v ≡ (inside b v && leaf_holds op value v)) × (bound_numbers b' ≡ true)
  unfolding op_text
  leaf_sound (str op) name value b v f b' hv hb hx h =
      bound_holds op (variable_name name) value b v f b' hv hb hx (un_ok h)
  leaf_sound null name value b v f b' hv hb hx h = absurd (no_op name value b f b' (un_ok h))
  leaf_sound (bool x) name value b v f b' hv hb hx h = absurd (no_op name value b f b' (un_ok h))
  leaf_sound (num x) name value b v f b' hv hb hx h = absurd (no_op name value b f b' (un_ok h))
  leaf_sound (datetime x) name value b v f b' hv hb hx h =
      absurd (no_op name value b f b' (un_ok h))
  leaf_sound (list x) name value b v f b' hv hb hx h = cc
  leaf_sound (dict x) name value b v f b' hv hb hx h = cc

  both_sound :
      (first : Res (Option String × Bounds F)) (next : Bounds F → Res (Option String × Bounds F))
      (f : String) (b' : Bounds F)
      → (first >>= λ l. next l.1 >>= λ r. ok (both_fields l.0 r)) ≡ ok (some f, b')
      → (g : String) × (b1 : Bounds F) × (first ≡ ok (some g, b1))
        × ((k : String) × (next b1 ≡ ok (some k, b')))
  unfolding both_fields
  both_sound (raise x) next f b' h = cc
  both_sound (ok (l, b1)) next f b' h =
      let (r, er, hr) = >>=-eq-ok (next b1) (λ r. ok (both_fields l r)) h in
      let ((g, eg), (k, ek)) = same_some l r.0 f (ap (λ x. x.0) (un_ok hr)) in
      (g, b1, ap (λ x. ok (x, b1)) eg, (k, er ∙ (λ i. ok (ek i, (ap (λ x. x.1) (un_ok hr)) i))))

  collect-holds :
      (n : ℕ) (node : Value F) (b : Bounds F) (v : F) (f : String) (b' : Bounds F)
      → p.eq v v ≡ true
      → bound_numbers b ≡ true
      → numbers n node ≡ true
      → collect n node b ≡ ok (some f, b')
      → (inside b' v ≡ (inside b v && holds n node v)) × (bound_numbers b' ≡ true)
  unfolding collect holds numbers
  collect-holds (suc n) (dict node) b v f b' hv hb hx h = elim (Bool-cases (is_and node)) [
    | inl e ↦
        let (g, b1, el, (k, er)) =
          both_sound (collect n (get_field "left" node) b) (collect n (get_field "right" node)) f b'
            (rw (e, collect) at h) in
        let (il, nl) = collect-holds n (get_field "left" node) b v g b1 hv hb (ground arith) el in
        let (ir, nr) = collect-holds n (get_field "right" node) b1 v k b' hv nl (ground arith) er in
        rw e (and_sound _ _ (inside b1 v) (inside b' v) (inside b v) il ir, nr)
    | inr e ↦ rw e (
        leaf_sound (get_field "op" node) (get_field "variable" node) (get_field "value" node) b v f
          b' hv hb (ground arith) (unfold collect_leaf in rw (e, collect) at h))
  ]
  collect-holds zero node b v f b' hv hb hx h = cc
  collect-holds (suc n) null b v f b' hv hb hx h = cc
  collect-holds (suc n) (bool x) b v f b' hv hb hx h = cc
  collect-holds (suc n) (num x) b v f b' hv hb hx h = cc
  collect-holds (suc n) (str x) b v f b' hv hb hx h = cc
  collect-holds (suc n) (datetime x) b v f b' hv hb hx h = cc
  collect-holds (suc n) (list x) b v f b' hv hb hx h = cc

  -- The range that the bounds of a predicate make accepts a number exactly when every comparison in
  -- the predicate does, as the kernel decides both, for numbers that are no NaN: whatever the nesting
  -- and the order of the comparisons, and with any fuel from the predicate's nesting on.
  pub collect-inside :
      (n : ℕ) (predicate : Value F) (v : F) (name : String) (b : Bounds F)
      → nesting predicate ≤ n
      → p.eq v v ≡ true
      → numbers n predicate ≡ true
      → collect (nesting predicate) predicate no_bounds ≡ ok (some name, b)
      → inside b v ≡ holds n predicate v
  unfolding inside
  collect-inside n predicate v name b hn hv hx h =
      (collect-holds n predicate no_bounds v name b hv refl hx
        (collect-fuel n (nesting predicate) predicate no_bounds hn (ground arith) ∙ h)).0
