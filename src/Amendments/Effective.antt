-- ===== src/Amendments/Effective.antt =====
-- `effective_invariants` of src/dir_core/amendments.py: what amendments can change.
use decision_intelligence_ru.Prelude.{
  All, Bool-cases, List, Option, String, [], ap, arith, eq_iff, if◌then◌else◌, inl, inr, map, mem,
  none, refl, some, subst, sym, ℤ, ◌++◌, ◌==◌, ◌∙◌, ◌∷◌, ◌≡◌,
}
use decision_intelligence_ru.Dict
use decision_intelligence_ru.Dict.{Dict}
use decision_intelligence_ru.Python.{>>=-eq-ok, Fields, Prims, find_field, ok, update_fields}
use decision_intelligence_ru.Models.{
  ContractParameterAmendment, InvariantSpec, Pydantic, RuntimeContractProjection, dump_spec,
}
use decision_intelligence_ru.Amendments.{
  amend, amend_all, apply_amendment_patch, effective_invariants, expired, index_by_id,
  resolve_expires_at,
}
use decision_intelligence_ru.Amendments.Envelope.{Distinct, find-update_fields, first_some}

module _ {F : Type 0} where
  -- Every rule of an index stands under its own id.
  abbrev Indexed : Dict (InvariantSpec F) → Type 0
  Indexed [] = Unit
  Indexed ((k, s) ∷ d) = (s.id ≡ k) × Indexed d

  abbrev pub ids : List (InvariantSpec F) → List String
  ids = map (λ s. s.id)

  Indexed-get :
      (k : String) (d : Dict (InvariantSpec F)) (s : InvariantSpec F)
      → Indexed d
      → Dict.get k d ≡ some s
      → s.id ≡ k
  unfolding Dict.get
  Indexed-get k [] s h e = cc
  Indexed-get k ((j, t) ∷ d) s h e = ground (arith, eq_iff j k, Indexed-get k d s h.1)

  Indexed-set :
      (k : String) (d : Dict (InvariantSpec F)) (s : InvariantSpec F)
      → Indexed d
      → s.id ≡ k
      → Indexed (Dict.set k s d)
  unfolding Dict.set
  Indexed-set k [] s h e = (e, tt)
  Indexed-set k ((j, t) ∷ d) s h e = elim (Bool-cases (j == k)) [
    | inl q ↦ rw q (e ∙ sym ((eq_iff j k).0 q), h.1)
    | inr q ↦ rw q (h.0, Indexed-set k d s h.1 e)
  ]

  keys-set_present :
      (k : String) (d : Dict (InvariantSpec F)) (s t : InvariantSpec F)
      → Dict.get k d ≡ some t
      → Dict.keys (Dict.set k s d) ≡ Dict.keys d
  unfolding Dict.get Dict.set Dict.keys
  keys-set_present k [] s t e = cc
  keys-set_present k ((j, w) ∷ d) s t e = ground (arith, keys-set_present k d s t)

  keys-Indexed : (d : Dict (InvariantSpec F)) → Indexed d → ids (Dict.values d) ≡ Dict.keys d
  unfolding Dict.keys Dict.values
  keys-Indexed [] h = refl
  keys-Indexed ((k, s) ∷ d) h = cc (h.0, keys-Indexed d h.1)

-- `list(dict.fromkeys(...))`, after the ids in `seen`: each id once, at its first place
unfoldable pub unique_ids : List String → List String → List String
unique_ids seen [] = seen
unique_ids seen (id ∷ ids) = unique_ids (if mem id seen then seen else seen ++ id ∷ []) ids

keys-set :
    {V : Type 0} (k : String) (v : V) (d : Dict V)
    → Dict.keys (Dict.set k v d)
      ≡ (if mem k (Dict.keys d) then Dict.keys d else Dict.keys d ++ k ∷ [])
unfolding Dict.set Dict.keys mem
keys-set k v [] = refl
keys-set k v ((j, w) ∷ d) = elim (Bool-cases (j == k)) [
  | inl e ↦ rw e refl
  | inr e ↦ rw (e, keys-set k v d) (ground arith)
]

ok_injective : {A : Type 0} (a b : A) → ok a ≡ ok b → a ≡ b
ok_injective a b h = cc

module _ {F : Type 0} ⦃p : Prims F⦄ where
  same :
      (d e : Dict (InvariantSpec F))
      → Indexed d
      → ok d ≡ ok e
      → Indexed e × (Dict.keys e ≡ Dict.keys d)
  same d e i h = subst (λ x. Indexed x × (Dict.keys x ≡ Dict.keys d)) (ok_injective d e h) (i, refl)

  index_all :
      (ss : List (InvariantSpec F)) (d : Dict (InvariantSpec F))
      → Indexed d
      → Indexed (index_by_id ss d)
        × (Dict.keys (index_by_id ss d) ≡ unique_ids (Dict.keys d) (ids ss))
  unfolding index_by_id unique_ids
  index_all [] d i = (i, refl)
  index_all (s ∷ ss) d i =
      let (i', q) = index_all ss (Dict.set s.id s d) (Indexed-set s.id d s i refl) in
      (i', q ∙ ap (λ l. unique_ids l (ids ss)) (keys-set s.id s d))

module _ {F : Type 0} ⦃p : Prims F⦄ ⦃y : Pydantic F⦄ where
  -- A patch that changes no id, as every validated one.
  abbrev pub KeepsId : ContractParameterAmendment F → Type 0
  KeepsId a = Distinct a.patch × (find_field "id" a.patch ≡ none)

  patched_id :
      (base patched : InvariantSpec F) (patch : Fields F)
      → Distinct patch
      → find_field "id" patch ≡ none
      → apply_amendment_patch base patch ≡ ok patched
      → patched.id ≡ base.id
  unfolding apply_amendment_patch
  patched_id base patched patch d n e =
      y.spec_id (update_fields (dump_spec base) patch) patched base.id e (
        find-update_fields "id" (dump_spec base) patch d
        ∙ ap (λ o. first_some o (find_field "id" (dump_spec base))) n
        ∙ unfold dump_spec find_field in refl)

  -- An index keeps its keys.
  amend-keys :
      (now : ℤ) (a : ContractParameterAmendment F) (o : Option (InvariantSpec F))
      (d e : Dict (InvariantSpec F))
      → KeepsId a
      → Indexed d
      → Dict.get a.invariant_id d ≡ o
      → amend now a o d ≡ ok e
      → Indexed e × (Dict.keys e ≡ Dict.keys d)
  unfolding amend
  amend-keys now a none d e k i g h = same d e i h
  amend-keys now a (some base) d e k i g h =
      elim (Bool-cases (expired (resolve_expires_at a base.amend_ttl_seconds) now)) [
        | inl q ↦ same d e i (rw q at h)
        | inr q ↦
            let (patched, applied, set_ok) =
              >>=-eq-ok (apply_amendment_patch base a.patch) _ (rw q at h) in
            let id =
              patched_id base patched a.patch k.0 k.1 applied
              ∙ Indexed-get a.invariant_id d base i g in
            subst (λ x. Indexed x × (Dict.keys x ≡ Dict.keys d)) (ok_injective _ e set_ok)
              (
                Indexed-set a.invariant_id d patched i id,
                keys-set_present a.invariant_id d patched base g,
              )
      ]

  amend_all-keys :
      (now : ℤ) (as' : List (ContractParameterAmendment F)) (d e : Dict (InvariantSpec F))
      → All KeepsId as'
      → Indexed d
      → amend_all now as' d ≡ ok e
      → Indexed e × (Dict.keys e ≡ Dict.keys d)
  unfolding amend_all
  amend_all-keys now [] d e k i h = same d e i h
  amend_all-keys now (a ∷ as') d e k i h =
      let (next, one, rest) = >>=-eq-ok (amend now a (Dict.get a.invariant_id d) d) _ h in
      let (i', q) = amend-keys now a (Dict.get a.invariant_id d) d next k.0 i refl one in
      let (i'', q') = amend_all-keys now as' next e k.1 i' rest in (i'', q' ∙ q)

  -- Where no patch names an id, as in a validated one, the effective rules have the ids of the
  -- projection's rules, each once, in the order in which they first stand there: amendments, expired
  -- or not, add and reorder nothing, and of rules with one id only one is left.
  pub ids-effective_invariants :
      (projection : RuntimeContractProjection F) (now : ℤ) (effective : List (InvariantSpec F))
      → All KeepsId projection.parameter_amendments
      → effective_invariants projection now ≡ ok effective
      → ids effective ≡ unique_ids [] (ids projection.invariants)
  unfolding effective_invariants Dict.keys
  ids-effective_invariants projection now effective keeps h =
      let (i, q) = index_all projection.invariants [] tt in
      let (d, amended, got) =
        >>=-eq-ok
          (amend_all now projection.parameter_amendments (index_by_id projection.invariants [])) _
          h in
      let (i', q') = amend_all-keys now projection.parameter_amendments _ d keeps i amended in
      ap ids (sym (ok_injective _ effective got)) ∙ keys-Indexed d i' ∙ q' ∙ q
