-- ===== src/Idempotency/Once.antt =====
-- How often the guard of src/dir_core/idempotency.py executes an operation.
use decision_intelligence_ru.Prelude.{
  Option, Option-cases, String, ap, arith, eq_iff, inl, inr, none, refl, some, sym, ◌∙◌, ◌≡◌, ◌≢◌,
}
use decision_intelligence_ru.Dict
use decision_intelligence_ru.Dict.{Dict}
use decision_intelligence_ru.Dict.Laws.{get-set, get-set_self}
use decision_intelligence_ru.Idempotency.{get_cached, run_keyed}

module _ {A W : Type 0} (key : String) (perform : W → Option A × W) where
  hit :
      (a : A) (cache : Dict (Option A)) (world : W)
      → get_cached key cache ≡ some a
      → run_keyed key perform cache world ≡ (cache, world, some a)
  unfolding run_keyed
  hit a cache world e = rw (e, run_keyed) refl

  miss :
      (cache : Dict (Option A)) (world : W)
      → get_cached key cache ≡ none
      → run_keyed key perform cache world
        ≡ (Dict.set key (perform world).0 cache, (perform world).1, (perform world).0)
  unfolding run_keyed
  miss cache world e = rw (e, run_keyed) refl

  cached-set : (r : Option A) (cache : Dict (Option A)) → get_cached key (Dict.set key r cache) ≡ r
  unfolding get_cached
  cached-set r cache = rw (get-set_self, get_cached) refl

  abbrev again : Dict (Option A) × W × Option A → Dict (Option A) × W × Option A
  again (cache, world, result) = run_keyed key perform cache world

  -- A call that returned a value is not executed again: the same call right after it returns that
  -- value from the cache, and leaves cache and world as they are.
  pub run-run :
      (cache : Dict (Option A)) (world : W) (a : A)
      → (run_keyed key perform cache world).2 ≡ some a
      → again (run_keyed key perform cache world) ≡ run_keyed key perform cache world
  run-run cache world a h = elim (Option-cases (get_cached key cache)) [
    | inr (b, e) ↦ rw (hit b cache world e) (hit b cache world e)
    | inl e ↦
        let m = miss cache world e in
        let r : (perform world).0 ≡ some a = sym (ap (λ t. t.2) m) ∙ h in
        rw m (
          hit a (Dict.set key (perform world).0 cache) (perform world).1
            (cached-set (perform world).0 cache ∙ r)
          ∙ cc)
  ]

  -- A call that returned None is executed again by the next same call: the world is changed twice.
  pub run-none :
      (cache : Dict (Option A)) (world : W)
      → get_cached key cache ≡ none
      → (perform world).0 ≡ none
      → (again (run_keyed key perform cache world)).1 ≡ (perform (perform world).1).1
  run-none cache world e n = rw (miss cache world e) (
      rw
        (miss (Dict.set key (perform world).0 cache) (perform world).1
          (cached-set (perform world).0 cache ∙ n))
        refl)

  -- A call under one key leaves what is cached under every other key.
  pub run-other :
      (j : String) (cache : Dict (Option A)) (world : W)
      → key ≢ j
      → get_cached j (run_keyed key perform cache world).0 ≡ get_cached j cache
  run-other j cache world n = elim (Option-cases (get_cached key cache)) [
    | inr (b, e) ↦ rw (hit b cache world e) refl
    | inl e ↦
        rw (miss cache world e)
          (unfold get_cached in ground (arith, get-set key j (perform world).0 cache, eq_iff key j))
  ]
