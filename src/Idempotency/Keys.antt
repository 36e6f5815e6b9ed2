-- ===== src/Idempotency/Keys.antt =====
-- The keys of src/dir_core/idempotency.py.
use decision_intelligence_ru.Prelude.{
  Bool-cases, String, ap, eq_iff, false≢true, inl, inr, refl, sym, ◌==◌, ◌∙◌, ◌≡◌, ◌≢◌, ◌⊎◌,
}
use decision_intelligence_ru.Python.Text.{◌+s◌}
use text.Mathlib.TextLemmas.{append_assoc, nil-append, cons-append}
use mathlib.Core.Path.{ap₂}
use Prim.Native.Char.{Char, code}
use decision_intelligence_ru.Idempotency.{idempotency_key, raw_key}

-- A text with no colon.
abbrev pub NoColon : String → Type 0
NoColon String.[] = Unit
NoColon (String.◌∷◌ c s) = (code c ≢ 58) × NoColon s

-- Two operations whose texts split the same way have one key: with the ids "a" and "b:c" on one side
-- and "a:b" and "c" on the other, whatever the digest is, and for the same parameters. This holds of
-- any colon that moves from the step id to the flow id.
pub key-collision :
    (digest : String → String) (flow middle step canonical : String)
    → idempotency_key digest flow (middle +s ":" +s step) canonical
      ≡ idempotency_key digest (flow +s ":" +s middle) step canonical
unfolding idempotency_key raw_key
key-collision digest flow middle step canonical = ap digest (simp append_assoc)

abbrev colon : Char
colon = ":"

abbrev behind : String → String
behind s = String.◌∷◌ colon s

colon_append : (s : String) → ":" +s s ≡ behind s
colon_append s = cons-append colon "" s ∙ ap behind (nil-append s)

head_eq : (c d : Char) (s t : String) → String.◌∷◌ c s ≡ String.◌∷◌ d t → c ≡ d
head_eq c d s t e = cc

tail_eq : (c d : Char) (s t : String) → String.◌∷◌ c s ≡ String.◌∷◌ d t → s ≡ t
tail_eq c d s t e = cc

-- Texts with no colon before the first colon are read back.
split_behind :
    (a b s t : String) → NoColon a → NoColon b → a +s behind s ≡ b +s behind t → (a ≡ b) × (s ≡ t)
split_behind String.[] String.[] s t n m e =
    (refl, tail_eq colon colon s t (sym (nil-append _) ∙ e ∙ nil-append _))
split_behind String.[] (String.◌∷◌ c b) s t n m e =
    absurd (m.0 (sym (ap code (head_eq colon c s _ (sym (nil-append _) ∙ e ∙ cons-append c b _)))))
split_behind (String.◌∷◌ c a) String.[] s t n m e =
    absurd (n.0 (ap code (head_eq c colon _ t (sym (cons-append c a _) ∙ e ∙ nil-append _))))
split_behind (String.◌∷◌ c a) (String.◌∷◌ d b) s t n m e =
    let e' = sym (cons-append c a (behind s)) ∙ e ∙ cons-append d b (behind t) in
    let (q, r) = split_behind a b s t n.1 m.1 (tail_eq c d _ _ e') in
    (ap₂ String.◌∷◌ (head_eq c d _ _ e') q, r)

split_colon :
    (a b s t : String) → NoColon a → NoColon b → a +s ":" +s s ≡ b +s ":" +s t → (a ≡ b) × (s ≡ t)
split_colon a b s t n m e =
    split_behind a b s t n m (ap (◌+s◌ a) (sym (colon_append s)) ∙ e ∙ ap (◌+s◌ b) (colon_append t))

-- With flow and step ids that hold no colon, two operations have the same key only if flow, step
-- and canonical parameters are the same, or else their two hashed texts are a collision of the
-- digest.
pub idempotency_key_injective :
    (digest : String → String) (d e s t a b : String)
    → NoColon d
    → NoColon e
    → NoColon s
    → NoColon t
    → idempotency_key digest d s a ≡ idempotency_key digest e t b
    → ((d ≡ e) × (s ≡ t) × (a ≡ b))
      ⊎ ((raw_key d s a ≢ raw_key e t b) × (digest (raw_key d s a) ≡ digest (raw_key e t b)))
unfolding idempotency_key raw_key
idempotency_key_injective digest d e s t a b nd ne ns nt h =
    elim (Bool-cases (raw_key d s a == raw_key e t b)) [
      | inl same ↦
          let (p, rest) =
            split_colon d e (s +s ":" +s a) (t +s ":" +s b) nd ne
              ((eq_iff (raw_key d s a) (raw_key e t b)).0 same) in
          let (q, r) = split_colon s t a b ns nt rest in inl (p, q, r)
      | inr other ↦
          inr ((λ e'. false≢true (sym other ∙ (eq_iff (raw_key d s a) (raw_key e t b)).1 e')), h)
    ]
