-- ===== src/Prelude/Lists.antt =====
-- Lists measured by native numbers, tests over lists, and a predicate over all elements.
use Prim.Native.Nat.{ℕ, zero, suc, ◌+◌}
use Prim.Native.String.{String}
use mathlib.Core.Path.{◌≡◌, subst}
use mathlib.Core.Logic.{◌⊎◌, inl, inr}
use mathlib.Core.Bool.{Bool, true, false, ◌||◌, ◌&&◌, false≢true}
use mathlib.Core.List.{List, [], ◌∷◌, ◌++◌}
use native.Mathlib.Omega.{arith}
use text.Mathlib.Text.{◌==◌}
use text.Mathlib.TextEquality.{eq_iff}
use decision_intelligence_ru.Prelude.Tests.{if◌then◌else◌, Bool-cases}

-- The empty type at every level.
pub data Empty {ℓ} : Type ℓ where

module _ {ℓ} {A : Type ℓ} where
  abbrev pub length : List A → ℕ
  length [] = 0
  length (x ∷ xs) = suc (length xs)

  pub length-append : (xs ys : List A) → length (xs ++ ys) ≡ length xs + length ys
  length-append [] ys = omega arith
  length-append (x ∷ xs) ys = omega (arith, length-append xs ys)

  -- `[x for x in xs if p(x)]`
  unfoldable pub keep : (A → Bool) → List A → List A
  keep p [] = []
  keep p (x ∷ xs) = if p x then x ∷ keep p xs else keep p xs

  -- `xs[:n]`
  unfoldable pub take : ℕ → List A → List A
  take zero xs = []
  take (suc n) [] = []
  take (suc n) (x ∷ xs) = x ∷ take n xs

  -- `not xs`
  abbrev pub is_empty : List A → Bool
  is_empty [] = true
  is_empty (x ∷ xs) = false

  -- `any(p(x) for x in xs)`
  abbrev pub any : (A → Bool) → List A → Bool
  any p [] = false
  any p (x ∷ xs) = p x || any p xs

  -- `all(p(x) for x in xs)`
  abbrev pub all : (A → Bool) → List A → Bool
  all p [] = true
  all p (x ∷ xs) = p x && all p xs

  -- Every element satisfies `P`.
  abbrev pub All {κ} : (A → Type κ) → List A → Type κ
  All P [] = Unit
  All P (x ∷ xs) = P x × All P xs

  -- Some element is `a`.
  abbrev pub Has : A → List A → Type ℓ
  Has a [] = Empty
  Has a (x ∷ xs) = (x ≡ a) ⊎ Has a xs

  pub All-Has {κ} : (P : A → Type κ) (a : A) (xs : List A) → All P xs → Has a xs → P a
  All-Has P a [] h m = elim m [ ]
  All-Has P a (x ∷ xs) h (inl e) = subst P e h.0
  All-Has P a (x ∷ xs) h (inr m) = All-Has P a xs h.1 m

  pub All-append {κ} : (P : A → Type κ) (xs ys : List A) → All P xs → All P ys → All P (xs ++ ys)
  All-append P [] ys h k = k
  All-append P (x ∷ xs) ys h k = (h.0, All-append P xs ys h.1 k)

-- `name in names`
unfoldable pub mem : String → List String → Bool
mem a [] = false
mem a (x ∷ xs) = x == a || mem a xs

pub mem-Has : (a : String) (xs : List String) → mem a xs ≡ true → Has a xs
unfolding mem
mem-Has a [] h = absurd (false≢true h)
mem-Has a (x ∷ xs) h = elim (Bool-cases (x == a)) [
  | inl e ↦ inl ((eq_iff x a).0 e)
  | inr e ↦ inr (mem-Has a xs (ground arith))
]

pub Has-mem : (a : String) (xs : List String) → Has a xs → mem a xs ≡ true
unfolding mem
Has-mem a [] m = elim m [ ]
Has-mem a (x ∷ xs) (inl e) = ground (arith, eq_iff x a)
Has-mem a (x ∷ xs) (inr m) = ground (arith, Has-mem a xs m)

pub mem-snoc : (a y : String) (xs : List String) → mem a (xs ++ y ∷ []) ≡ (mem a xs || y == a)
unfolding mem
mem-snoc a y [] = ground arith
mem-snoc a y (x ∷ xs) = ground (arith, mem-snoc a y xs)
