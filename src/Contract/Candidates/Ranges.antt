-- ===== src/Contract/Candidates/Ranges.antt =====
-- What a further bound does to a range, in the order of floats.
use decision_intelligence_ru.Prelude.{
  Bool, Option, arith, none, not, or_else, refl, some, true, ◌&&◌, ◌||◌, ◌≡◌,
}
use decision_intelligence_ru.Python.{Prims}
use decision_intelligence_ru.Invariants.{above, below}
use decision_intelligence_ru.Contract.Candidates.{Bounds, lower_max, py_max, py_min, raise_min}

module _ {F : Type 0} ⦃p : Prims F⦄ where
  -- the kernel's two tests of a range
  unfoldable pub inside : Bounds F → F → Bool
  inside b v = not (below b.min v) && not (above b.max v)

  abbrev pub option_number : Option F → Bool
  option_number none = true
  option_number (some x) = p.eq x x

  abbrev pub bound_numbers : Bounds F → Bool
  bound_numbers b = option_number b.min && option_number b.max

  below_max :
      (v a b : F) → p.eq v v ≡ true → p.eq a a ≡ true → p.lt v (py_max a b) ≡ (p.lt v a || p.lt v b)
  unfolding py_max
  below_max v a b hv ha =
      ground (arith, p.lt_between a v b hv, p.lt_not_le v a, p.lt_between v a b ha)

  above_min :
      (v a b : F) → p.eq v v ≡ true → p.eq a a ≡ true → p.lt (py_min a b) v ≡ (p.lt a v || p.lt b v)
  unfolding py_min
  above_min v a b hv ha =
      ground (arith, p.lt_between b v a hv, p.lt_not_le a v, p.lt_between b a v ha)

  py_max_self : (a : F) → py_max a a ≡ a
  unfolding py_max
  py_max_self a = ground arith

  py_min_self : (a : F) → py_min a a ≡ a
  unfolding py_min
  py_min_self a = ground arith

  below_raised :
      (o : Option F) (x v : F)
      → p.eq v v ≡ true
      → p.eq x x ≡ true
      → option_number o ≡ true
      → (p.lt v (py_max (or_else o x) x) ≡ (below o v || p.lt v x))
        × (option_number (some (py_max (or_else o x) x)) ≡ true)
  below_raised none x v hv hx h = rw py_max_self (refl, hx)
  below_raised (some a) x v hv hx h = (below_max v a x hv h, unfold py_max in ground arith)

  above_lowered :
      (o : Option F) (x v : F)
      → p.eq v v ≡ true
      → p.eq x x ≡ true
      → option_number o ≡ true
      → (p.lt (py_min (or_else o x) x) v ≡ (above o v || p.lt x v))
        × (option_number (some (py_min (or_else o x) x)) ≡ true)
  above_lowered none x v hv hx h = rw py_min_self (refl, hx)
  above_lowered (some a) x v hv hx h = (above_min v a x hv h, unfold py_min in ground arith)

  pub inside-raise_min :
      (b : Bounds F) (x v : F)
      → p.eq v v ≡ true
      → p.eq x x ≡ true
      → bound_numbers b ≡ true
      → (inside (raise_min x b) v ≡ (inside b v && not (p.lt v x)))
        × (bound_numbers (raise_min x b) ≡ true)
  unfolding inside raise_min
  inside-raise_min b x v hv hx hb =
      let (less, number) = below_raised b.min x v hv hx (ground arith) in
      (rw less (ground arith), ground arith)

  pub inside-lower_max :
      (b : Bounds F) (x v : F)
      → p.eq v v ≡ true
      → p.eq x x ≡ true
      → bound_numbers b ≡ true
      → (inside (lower_max x b) v ≡ (inside b v && not (p.lt x v)))
        × (bound_numbers (lower_max x b) ≡ true)
  unfolding inside lower_max
  inside-lower_max b x v hv hx hb =
      let (more, number) = above_lowered b.max x v hv hx (ground arith) in
      (rw more (ground arith), ground arith)
