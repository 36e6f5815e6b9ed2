-- ===== src/Contract/Candidates/Fuel.antt =====
-- The fuel that the search of a candidate's bounds needs.
use decision_intelligence_ru.Prelude.{
  String, arith, false, if◌then◌else◌, larger, none, refl, suc, sym, zero, ℕ, ◌∙◌, ◌≡◌, ◌≤◌,
}
use decision_intelligence_ru.Python.{
  Fields, Prims, Value, bool, datetime, dict, end, field, find_field, get_field, is_dict, list,
  null, num, ok, str, ◌>>=◌,
}
use decision_intelligence_ru.Contract.Candidates.{
  Bounds, both_fields, collect, collect_leaf, is_and, nesting, nesting_fields,
}

larger_bounds : (a b : ℕ) → (a ≤ larger a b) × (b ≤ larger a b)
larger_bounds a b = (ground arith, ground arith)

nesting-get_field :
    {F : Type 0} → (k : String) (fs : Fields F) → nesting (get_field k fs) ≤ nesting_fields fs
unfolding nesting nesting_fields get_field find_field
nesting-get_field k end = ground arith
nesting-get_field k (field j v fs) = ground (arith, nesting-get_field k fs)

module _ {F : Type 0} ⦃p : Prims F⦄ where
  collect_other :
      (n : ℕ) (v : Value F) (b : Bounds F) → is_dict v ≡ false → collect n v b ≡ ok (none, b)
  unfolding collect
  collect_other zero v b h = refl
  collect_other (suc n) null b h = refl
  collect_other (suc n) (bool x) b h = refl
  collect_other (suc n) (num x) b h = refl
  collect_other (suc n) (str x) b h = refl
  collect_other (suc n) (datetime x) b h = refl
  collect_other (suc n) (list x) b h = refl
  collect_other (suc n) (dict x) b h = cc

  shallower :
      (k : String) (node : Fields F) (n : ℕ)
      → nesting (dict node) ≤ suc n
      → nesting (get_field k node) ≤ n
  unfolding nesting
  shallower k node n h = ground (arith, nesting-get_field k node)

  no_fuel : (node : Fields F) → nesting (dict node) ≤ 0 → ⊥
  unfolding nesting
  no_fuel node h = ground arith

  -- Any fuel from the nesting of a predicate on gives the same bounds.
  pub collect-fuel :
      (n m : ℕ) (v : Value F) (b : Bounds F)
      → nesting v ≤ n
      → nesting v ≤ m
      → collect n v b ≡ collect m v b
  unfolding collect
  collect-fuel (suc n) (suc m) (dict node) b hn hm = λ i.
      if is_and node
      then (collect-fuel n m (get_field "left" node) b (shallower "left" node n hn)
            (shallower "left" node m hm) i
          >>= λ l.
              collect-fuel n m (get_field "right" node) l.1 (shallower "right" node n hn)
                (shallower "right" node m hm) i
              >>= λ r. ok (both_fields l.0 r))
      else collect_leaf node b
  collect-fuel zero m (dict node) b hn hm = absurd (no_fuel node hn)
  collect-fuel (suc n) zero (dict node) b hn hm = absurd (no_fuel node hm)
  collect-fuel n m v b hn hm = collect_other n v b refl ∙ sym (collect_other m v b refl)
