-- ===== src/Contract/Normalize/Keys.antt =====
-- The keys of a dict after a write.
use decision_intelligence_ru.Prelude.{
  All, Bool-cases, Option-cases, String, arith, eq_iff, inl, inr, is_some, mem, refl, ◌==◌, ◌||◌,
  ◌≡◌,
}
use decision_intelligence_ru.Python.{Fields, Value, end, field, field_keys, find_field, set_field}
use decision_intelligence_ru.Contract.Normalize.{set_default}

module _ {F : Type 0} where
  pub mem-set_field :
      (a k : String) (v : Value F) (fs : Fields F)
      → mem a (field_keys (set_field k v fs)) ≡ (mem a (field_keys fs) || k == a)
  unfolding set_field mem
  mem-set_field a k v end = ground arith
  mem-set_field a k v (field j w fs) = ground (arith, eq_iff j k, mem-set_field a k v fs)

  pub mem-find_field :
      (k : String) (fs : Fields F) → mem k (field_keys fs) ≡ is_some (find_field k fs)
  unfolding mem find_field
  mem-find_field k end = refl
  mem-find_field k (field j v fs) = ground (arith, mem-find_field k fs)

  pub mem-set_default :
      (a k : String) (v : Value F) (fs : Fields F)
      → mem a (field_keys (set_default k v fs)) ≡ (mem a (field_keys fs) || k == a)
  unfolding set_default mem
  mem-set_default a k v fs = elim (Option-cases (find_field k fs)) [
    | inl e ↦ rw (e, set_default) (mem-set_field a k v fs)
    | inr (w, e) ↦ rw (e, set_default) (ground (arith, eq_iff k a, mem-find_field k fs, e))
  ]

  pub set_field-All :
      (P : String → Type 0) (k : String) (v : Value F) (fs : Fields F)
      → All P (field_keys fs)
      → P k
      → All P (field_keys (set_field k v fs))
  unfolding set_field
  set_field-All P k v end h q = (q, tt)
  set_field-All P k v (field j w fs) h q = elim (Bool-cases (j == k)) [
    | inl e ↦ rw e h
    | inr e ↦ rw e (h.0, set_field-All P k v fs h.1 q)
  ]
