-- ===== src/Python/Sample.antt =====
-- A concrete instance of the Python primitives for tests and examples: fixed point numbers with two
-- decimals, and a NaN that no comparison holds of.
use decision_intelligence_ru.Prelude.{
  Bool, List, [], arith, false, if◌then◌else◌, leb_ℤ, ltb_ℤ, neg_part, none, pos, pos_part, some,
  sub_ℕ, true, ℕ, ℤ, ◌&&◌, ◌*◌, ◌+ℤ◌, ◌+◌, ◌==◌, ◌∷◌, ◌||◌, ◌≡◌, ◌⊎◌,
}
use Prim.Native.Nat.{◌/◌, ◌^◌}
use decision_intelligence_ru.Python.{Prims, Res, ok, raise, value_error}

pub data Sample : Type 0 where
  nan : Sample
  cents : ℤ → Sample

abbrev pub sample_lt : Sample → Sample → Bool
sample_lt (cents a) (cents b) = ltb_ℤ a b
sample_lt _ _ = false

abbrev pub sample_eq : Sample → Sample → Bool
sample_eq (cents a) (cents b) = leb_ℤ a b && leb_ℤ b a
sample_eq _ _ = false

abbrev both : (ℤ → ℤ → ℤ) → Sample → Sample → Sample
both f (cents a) (cents b) = cents (f a b)
both f _ _ = nan

abbrev magnitude : ℤ → ℕ
magnitude a = pos_part a + neg_part a

abbrev sample_abs : Sample → Sample
sample_abs nan = nan
sample_abs (cents a) = cents (pos (magnitude a))

abbrev sample_micros : Sample → ℤ
sample_micros nan = pos 0
sample_micros (cents a) = sub_ℕ (pos_part a * 10000) (neg_part a * 10000)

pub sample_between :
    (a b c : Sample)
    → sample_eq b b ≡ true
    → sample_lt a c ≡ true
    → (sample_lt a b ≡ true) ⊎ (sample_lt b c ≡ true)
sample_between (cents a) (cents b) (cents c) e h = ground arith
sample_between nan b c e h = cc
sample_between (cents a) nan c e h = cc
sample_between (cents a) (cents b) nan e h = cc

pub sample_not_le : (a b : Sample) → sample_lt a b ≡ true → sample_lt b a || sample_eq b a ≡ false
sample_not_le (cents a) (cents b) h = ground arith
sample_not_le nan b h = cc
sample_not_le (cents a) nan h = cc

abbrev sample_after : ℤ → Sample → Res ℤ
sample_after t nan = raise value_error
sample_after t (cents a) = ok (t +ℤ sample_micros (cents a))

abbrev sample_sum : List Sample → Sample
sample_sum [] = cents (pos 0)
sample_sum (x ∷ xs) = both (λ a b. a +ℤ b) x (sample_sum xs)

instance abbrev pub sample : Prims Sample
sample = record {
  lt = sample_lt;
  eq = sample_eq;
  sub = both (λ a b. sub_ℕ (pos_part a + neg_part b) (neg_part a + pos_part b));
  mul = both (λ a b. pos (magnitude a * magnitude b / 100));
  div = both (λ a b. pos (magnitude a * 100 / magnitude b));
  abs = sample_abs;
  dec = λ m k. cents (pos (m * 100 / 10 ^ k));
  of_int = λ i. cents (sub_ℕ (pos_part i * 100) (neg_part i * 100));
  parse = λ s. if s == "nan" then some nan else none;
  sum = sample_sum;
  after = sample_after;
  upper = λ s. s;
  lower = λ s. s;
  iso = λ t. "time";
  casefold = λ s. s;
  strip = λ s. s;
  show = λ v. "?";
  lt_between = sample_between;
  lt_not_le = sample_not_le;
}
