-- ===== src/Dict/Laws.antt =====
-- What a reader sees of a dictionary after a write.
use decision_intelligence_ru.Prelude.{
  String, [], arith, eq_iff, eq_refl, if◌then◌else◌, none, refl, some, ◌==◌, ◌∷◌, ◌≡◌,
}
use decision_intelligence_ru.Dict.{Dict, get, pop, set}

module _ {ℓ} {V : Type ℓ} where
  pub get-set :
      (k j : String) (v : V) (d : Dict V) → get j (set k v d) ≡ (if k == j then some v else get j d)
  unfolding get set
  get-set k j v [] = refl
  get-set k j v ((i, w) ∷ d) = ground (arith, eq_iff k j, eq_iff i k, eq_iff i j, get-set k j v d)

  pub get-set_self : (k : String) (v : V) (d : Dict V) → get k (set k v d) ≡ some v
  get-set_self k v d = simp (get-set, eq_refl)

  pub get-pop : (k j : String) (d : Dict V) → get j (pop k d) ≡ (if k == j then none else get j d)
  unfolding get pop
  get-pop k j [] = ground arith
  get-pop k j ((i, w) ∷ d) = ground (arith, eq_iff k j, eq_iff i k, eq_iff i j, get-pop k j d)

pub ruleset dict_laws = (get-set, get-pop)
