-- ===== src/Invariants/Sound.antt =====
-- What the rules of src/dir_core/invariants.py demand, said without the evaluator.
use decision_intelligence_ru.Prelude.{
  Bool, Bool-cases, Has, List, Option, String, [], arith, false, inl, inr, is_empty, mem-Has, none,
  not, or_else, refl, some, true, ◌&&◌, ◌∷◌, ◌≡◌, ◌≢◌, ◌⊎◌,
}
use decision_intelligence_ru.Python.{
  Fields, Prims, Res, Value, eqv, is_null, member, ok, raise, to_float,
}
use decision_intelligence_ru.Models.{InvariantSpec, PolicyProposal}
use decision_intelligence_ru.Invariants.{
  above, below, check_range, denied_match, get_proposal_value, live_number, live_value,
  match_numbers, match_values, no_envelope, range_value, set_value, skips, within_envelope,
}

module _ {F : Type 0} ⦃p : Prims F⦄ where
  -- The value is a number that no bound orders away.
  pub record InRange (rule : InvariantSpec F) (v : Value F) : Type 0 where
    pub present : is_null v ≡ false
    pub actual : F
    pub numeric : to_float v ≡ ok actual
    pub over_min : (m : F) → rule.min ≡ some m → p.lt actual m ≡ false
    pub under_max : (m : F) → rule.max ≡ some m → p.lt m actual ≡ false

  -- The value is there, matches nothing denied, and is among what is allowed.
  pub record Permitted (rule : InvariantSpec F) (v : Value F) : Type 0 where
    pub present : is_null v ≡ false
    pub not_denied : denied_match rule v ≡ false
    pub allowed : (is_empty rule.allowed ≡ true) ⊎ (member v rule.allowed ≡ true)

  -- A fixed expectation: it is what both sides must equal.
  abbrev pub fixed : InvariantSpec F → Bool
  fixed rule = not (is_null rule.expected) && no_envelope rule.drift_envelope_pct

  -- The proposed value and the live one agree: with the fixed expectation, as numbers within the
  -- drift envelope, or as values where one of them is no number.
  pub data Agrees (rule : InvariantSpec F) (v w : Value F) : Type 0 where
    as_expected :
        fixed rule ≡ true
        → eqv v rule.expected ≡ true
        → eqv w rule.expected ≡ true
        → Agrees rule v w
    as_numbers :
        fixed rule ≡ false
        → (x y : F) → to_float v ≡ ok x
        → live_number w ≡ ok (some y)
        → within_envelope (or_else rule.drift_envelope_pct (p.dec 0 0)) x y ≡ true
        → Agrees rule v w
    as_values :
        fixed rule ≡ false
        → ((x : F) → (y : Option F) → to_float v ≡ ok x → live_number w ≡ ok y → ⊥)
        → eqv v w ≡ true
        → Agrees rule v w

  pub range_value_sound :
      (rule : InvariantSpec F) (v : Value F) → range_value rule v ≡ none → InRange rule v
  unfolding range_value check_range
  range_value_sound rule v h = go (to_float v) refl
    where
      go : (r : Res F) → to_float v ≡ r → InRange rule v
      go (ok x) e = record {
        present = ground arith;
        actual = x;
        numeric = e;
        over_min = λ m q. ground arith;
        under_max = λ m q. ground arith;
      }
      go (raise c) e = absurd (ground arith)

  below-false :
      (o : Option F) (x : F) → ((m : F) → o ≡ some m → p.lt x m ≡ false) → below o x ≡ false
  below-false none x h = refl
  below-false (some m) x h = h m refl

  above-false :
      (o : Option F) (x : F) → ((m : F) → o ≡ some m → p.lt m x ≡ false) → above o x ≡ false
  above-false none x h = refl
  above-false (some m) x h = h m refl

  pub range_value_complete :
      (rule : InvariantSpec F) (v : Value F) → InRange rule v → range_value rule v ≡ none
  unfolding range_value check_range
  range_value_complete rule v h =
      rw (h.present, h.numeric)
        (ground (
          arith,
          below-false rule.min h.actual h.over_min,
          above-false rule.max h.actual h.under_max,
        ))

  pub set_value_sound :
      (rule : InvariantSpec F) (v : Value F) → set_value rule v ≡ none → Permitted rule v
  unfolding set_value
  set_value_sound rule v h = ground arith

  pub set_value_complete :
      (rule : InvariantSpec F) (v : Value F) → Permitted rule v → set_value rule v ≡ none
  unfolding set_value
  set_value_complete rule v h = ground (arith, h.allowed)

  match_numbers_sound :
      (rule : InvariantSpec F) (v w : Value F)
      → fixed rule ≡ false
      → match_numbers rule v w ≡ none
      → Agrees rule v w
  unfolding match_numbers
  match_numbers_sound rule v w f h = go (to_float v) refl (live_number w) refl
    where
      go : (r : Res F) → to_float v ≡ r → (q : Res (Option F)) → live_number w ≡ q → Agrees rule v w
      go (raise c) e q g = as_values f (λ x y a b. cc) (ground arith)
      go (ok x) e (raise c) g = as_values f (λ x y a b. cc) (ground arith)
      go (ok x) e (ok none) g = absurd (ground arith)
      go (ok x) e (ok (some y)) g = as_numbers f x y e g (ground arith)

  pub match_values_sound :
      (rule : InvariantSpec F) (v w : Value F)
      → match_values rule v w ≡ none
      → (is_null v ≡ false) × Agrees rule v w
  unfolding match_values
  match_values_sound rule v w h = (
    ground arith,
    elim (Bool-cases (fixed rule)) [
      | inl f ↦ as_expected f (ground arith) (ground arith)
      | inr f ↦ match_numbers_sound rule v w f (ground arith)
    ],
  )

  match_numbers_complete :
      (rule : InvariantSpec F) (v w : Value F)
      → fixed rule ≡ false
      → Agrees rule v w
      → match_numbers rule v w ≡ none
  unfolding match_numbers
  match_numbers_complete rule v w f (as_expected g a b) = cc
  match_numbers_complete rule v w f (as_numbers g x y a b c) = ground arith
  match_numbers_complete rule v w f (as_values g other e) =
      go (to_float v) refl (live_number w) refl
    where
      go :
          (r : Res F)
          → to_float v ≡ r
          → (q : Res (Option F)) → live_number w ≡ q
          → match_numbers rule v w ≡ none
      go (raise c) a q b = ground arith
      go (ok x) a (raise c) b = ground arith
      go (ok x) a (ok y) b = absurd (other x y a b)

  pub match_values_complete :
      (rule : InvariantSpec F) (v w : Value F)
      → is_null v ≡ false
      → Agrees rule v w
      → match_values rule v w ≡ none
  unfolding match_values
  match_values_complete rule v w n a = elim (Bool-cases (fixed rule)) [
    | inl f ↦ expected f a
    | inr f ↦ ground (arith, match_numbers_complete rule v w f a)
  ]
    where
      expected : fixed rule ≡ true → Agrees rule v w → match_values rule v w ≡ none
      expected f (as_expected g x y) = ground arith
      expected f (as_numbers g x y a b c) = cc
      expected f (as_values g other e) = cc

  -- The rule applies to the proposal's kind.
  abbrev pub Applies : InvariantSpec F → PolicyProposal F → Type 0
  Applies rule proposal =
      (rule.applies_to_policy_kinds ≡ []) ⊎ Has proposal.policy_kind rule.applies_to_policy_kinds

  -- What a rule of each type demands of a proposal and a context.
  pub record Holds (rule : InvariantSpec F) (proposal : PolicyProposal F) (context : Fields F)
      : Type 0 where
    pub known : (rule.type ≡ "range") ⊎ ((rule.type ≡ "set") ⊎ (rule.type ≡ "state_match"))
    pub in_range : rule.type ≡ "range" → InRange rule (get_proposal_value proposal rule.field)
    pub permitted : rule.type ≡ "set" → Permitted rule (get_proposal_value proposal rule.field)
    pub bound : rule.type ≡ "state_match" → or_else rule.snapshot_path "" ≢ ""
    pub matches :
        rule.type ≡ "state_match"
        → (is_null (get_proposal_value proposal rule.field) ≡ false)
          × Agrees rule
              (get_proposal_value proposal rule.field)
              (live_value context (or_else rule.snapshot_path ""))

  pub skips-false :
      (rule : InvariantSpec F) (proposal : PolicyProposal F)
      → skips rule proposal ≡ false
      → Applies rule proposal
  unfolding skips
  skips-false rule proposal h = go rule.applies_to_policy_kinds refl
    where
      go :
          (ks : List String)
          → rule.applies_to_policy_kinds ≡ ks
          → (ks ≡ []) ⊎ Has proposal.policy_kind ks
      go [] e = inl refl
      go (k ∷ ks) e = inr (mem-Has proposal.policy_kind (k ∷ ks) (ground arith))
