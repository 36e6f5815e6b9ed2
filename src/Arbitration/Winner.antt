-- ===== src/Arbitration/Winner.antt =====
-- Who wins an arbitration: the first of the proposals with the smallest priority number.
use decision_intelligence_ru.Prelude.{All, Empty, List, [], ltb_ℤ, true, ℤ, ◌∷◌, ◌≡◌, ◌≤ℤ◌, ◌⊎◌}
use decision_intelligence_ru.Dict.{Dict}

module _ {ℓ} {A : Type ℓ} where
  -- `w` is in the list, below all before it and at most all after it.
  abbrev pub FirstMin : (A → ℤ) → A → List A → Type ℓ
  FirstMin key w [] = Empty
  FirstMin key w (x ∷ xs) =
      ((x ≡ w) × All (λ y. key w ≤ℤ key y) xs)
      ⊎ ((ltb_ℤ (key w) (key x) ≡ true) × FirstMin key w xs)
