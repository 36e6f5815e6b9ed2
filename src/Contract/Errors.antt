-- ===== src/Contract/Errors.antt =====
-- Lists of errors that are empty, and the tests on texts that the errors come from.
use decision_intelligence_ru.Prelude.{
  Bool, List, String, [], arith, eq_iff, false, false≢true, is_empty, not, refl, sym, true, ◌++◌,
  ◌==◌, ◌∙◌, ◌∷◌, ◌≡◌, ◌≢◌,
}
use decision_intelligence_ru.Dict.{keys}
use decision_intelligence_ru.Contract.Bootstrap.{error_if, missing_error}

pub error_if-nil :
    (failed : Bool) (message : String) → error_if failed message ≡ [] → failed ≡ false
unfolding error_if
error_if-nil true message h = cc
error_if-nil false message h = refl

pub both_nil : (xs ys : List String) → xs ++ ys ≡ [] → (xs ≡ []) × (ys ≡ [])
both_nil [] ys h = (refl, h)
both_nil (x ∷ xs) ys h = cc

pub four_nil :
    (a b c d : Bool) (k l m n : String) (rest : List String)
    → error_if a k ++ error_if b l ++ error_if c m ++ error_if d n ++ rest ≡ []
    → (a ≡ false) × (b ≡ false) × (c ≡ false) × (d ≡ false) × (rest ≡ [])
unfolding error_if
four_nil true b c d k l m n rest h = cc
four_nil false true c d k l m n rest h = cc
four_nil false false true d k l m n rest h = cc
four_nil false false false true k l m n rest h = cc
four_nil false false false false k l m n rest h = (refl, refl, refl, refl, h)

pub nil_four :
    (a b c d : Bool) (k l m n : String) (rest : List String)
    → a ≡ false
    → b ≡ false
    → c ≡ false
    → d ≡ false
    → rest ≡ []
    → error_if a k ++ error_if b l ++ error_if c m ++ error_if d n ++ rest ≡ []
unfolding error_if
nil_four a b c d k l m n rest ha hb hc hd hr = rw (ha, hb, hc, hd) hr

pub append_nils : (xs ys : List String) → xs ≡ [] → ys ≡ [] → xs ++ ys ≡ []
append_nils xs ys h k = rw h k

pub cons_not_nil : {x : String} {xs : List String} → x ∷ xs ≡ [] → ⊥
cons_not_nil h = cc

pub missing_nil : (name : String) (keys : List String) → missing_error name keys ≡ [] → keys ≡ []
unfolding missing_error
missing_nil name [] h = refl
missing_nil name (key ∷ keys) h = cc

pub set_text : (s : String) → (s == "") ≡ false → s ≢ ""
set_text s h e = false≢true (sym h ∙ (eq_iff s "").1 e)

pub unset_text : (s : String) → s ≢ "" → (s == "") ≡ false
unset_text s h = ground (arith, eq_iff s "")

pub no_items : (xs : List String) → not (is_empty xs) ≡ false → xs ≡ []
no_items [] h = refl
no_items (x ∷ xs) h = cc
