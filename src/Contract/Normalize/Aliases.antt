-- ===== src/Contract/Normalize/Aliases.antt =====
-- The canonical names of limits.
use decision_intelligence_ru.Dict
use decision_intelligence_ru.Dict.{Dict}
use decision_intelligence_ru.Prelude.{
  All, Bool-cases, Option, String, [], all, arith, inl, inr, is_some, none, not, or_else, refl,
  some, subst, true, ◌==◌, ◌∷◌, ◌≡◌,
}
use decision_intelligence_ru.Contract.{limit_key_aliases, normalize_limit_key}

-- The name stays as it is.
abbrev pub IsCanonical : String → Type 0
IsCanonical key = normalize_limit_key key ≡ key

get-All :
    (P : String → Type 0) (key target : String) (d : Dict String)
    → All (λ e. P e.1) d
    → Dict.get key d ≡ some target
    → P target
unfolding Dict.get
get-All P key target [] h e = cc
get-All P key target ((k, t) ∷ d) h e = elim (Bool-cases (k == key)) [
  | inl q ↦ subst P (ground arith) h.0
  | inr q ↦ get-All P key target d h.1 (ground arith)
]

abbrev IsNoAlias : String → Type 0
IsNoAlias target = Dict.get target limit_key_aliases ≡ none

no_aliases :
    (d : Dict String)
    → all (λ e. not (is_some (Dict.get e.1 limit_key_aliases))) d ≡ true
    → All (λ e. IsNoAlias e.1) d
no_aliases [] h = tt
no_aliases ((k, t) ∷ d) h = (ground arith, no_aliases d (ground arith))

alias_target :
    (key target : String) → Dict.get key limit_key_aliases ≡ some target → IsNoAlias target
alias_target key target h =
    get-All IsNoAlias key target limit_key_aliases
      (no_aliases limit_key_aliases (unfold Dict.get in refl)) h

alias_or :
    (key : String) (o : Option String)
    → Dict.get key limit_key_aliases ≡ o
    → or_else (Dict.get (or_else o key) limit_key_aliases) (or_else o key) ≡ or_else o key
alias_or key none e = rw e refl
alias_or key (some target) e = rw (alias_target key target e) refl

pub normalize-IsCanonical : (key : String) → IsCanonical (normalize_limit_key key)
unfolding normalize_limit_key
normalize-IsCanonical key = alias_or key (Dict.get key limit_key_aliases) refl
