-- ===== src/Registry/Status.antt =====
-- What the calls of src/dir_core/agent_registry.py do to an agent's status.
use decision_intelligence_ru.Amendments.{validate_amendment_patch}
use decision_intelligence_ru.ContractProjection.{project_contract}
use decision_intelligence_ru.Prelude.{
  Bool-cases, Option, Option-cases, String, arith, eq_iff, eq_refl, false, if◌then◌else◌, inl, inr,
  is_some, none, refl, some, subst, true, ℤ, ◌&&◌, ◌==◌, ◌∙◌, ◌≡◌,
}
use decision_intelligence_ru.Dict
use decision_intelligence_ru.Dict.Laws.{get-set}
use decision_intelligence_ru.Python.{>>=-eq-ok, Fields, Prims, Res, ok, raise, type_error}
use decision_intelligence_ru.Models.{
  ContractParameterAmendment, InvariantSpec, Pydantic, RuntimeContractProjection,
}
use decision_intelligence_ru.Registry.Version.{version_compatible}
use decision_intelligence_ru.Python.Json.{fields_json, json_dumps}
use decision_intelligence_ru.Registry.{
  AgentRecord, AgentRegistry, AmendmentResult, HandshakeResult, active, amend_target,
  amended_contract, amended_registry, apply_parameter_amendment, find_spec, get_agent_projection,
  get_agent_status, get_status, handshake, kept_reason, kept_version, refused, set_agent_status,
  update_status, upsert_agent, write_amendment,
}

-- the reason that a status has, if the agent is known
abbrev pub reason_of : Option (String × Option String) → Option String
reason_of none = none
reason_of (some (status, reason)) = reason

module _ {F : Type 0} where
  status-upsert :
      (store : Dict.Dict (AgentRecord F)) (a b : String) (c : Fields F) (pr : ℤ) (s : String)
      (v t : Option String)
      → get_status (upsert_agent store a c pr s v t) b
        ≡ (if a == b then some (s, reason_of (get_status store a)) else get_status store b)
  unfolding get_status upsert_agent kept_reason
  status-upsert store a b c pr s v t = ground (
    arith,
    get-set a b
        (record {
          contract = c;
          priority = pr;
          status = s;
          agent_version = v;
          session_token = t;
          suspension_reason = kept_reason (Dict.get a store);
        })
        store,
    eq_iff a b,
  )

  -- What a handshake may come to, seen at the status of an agent `b`.
  pub data Handshaken (g : AgentRegistry F) (a : String) (c : Fields F) (v t b : String)
      : Res (AgentRegistry F × HandshakeResult) → Type 0 where
    mismatched :
        version_compatible v g.supported_versions ≡ false
        → Handshaken g a c v t b (
            ok (
              g,
              record { accepted = false; session_token = none; reason = some "VERSION_MISMATCH" },
            ))
    not_stored :
        version_compatible v g.supported_versions ≡ true
        → fields_json c ≡ false
        → Handshaken g a c v t b (raise type_error)
    welcomed :
        (g' : AgentRegistry F)
        → version_compatible v g.supported_versions ≡ true
        → fields_json c ≡ true
        → get_agent_status g' b ≡ (
            if a == b
            then some (active, reason_of (get_agent_status g a))
            else get_agent_status g b)
        → Handshaken g a c v t b
            (ok (g', record { accepted = true; session_token = some t; reason = none }))

  -- A handshake of an incompatible version is refused and writes nothing. One of a compatible version
  -- raises where the contract has no JSON text, as with a datetime in it; otherwise it is accepted,
  -- makes the agent active under the reason that it had before, also where it was suspended, and
  -- leaves every other agent's status.
  pub handshake-Handshaken :
      (g : AgentRegistry F) (a : String) (c : Fields F) (v : String) (pr : ℤ) (t b : String)
      → Handshaken g a c v t b (handshake g a c v pr t)
  unfolding handshake json_dumps get_agent_status
  handshake-Handshaken g a c v pr t b =
      elim (Bool-cases (version_compatible v g.supported_versions)) [
        | inr e ↦ rw e (mismatched e)
        | inl e ↦ elim (Bool-cases (fields_json c)) [
          | inr n ↦ rw (e, n) (not_stored e n)
          | inl n ↦
              rw (e, n)
                (welcomed
                  (record g { store = upsert_agent g.store a c pr active (some v) (some t) }) e n
                  (status-upsert g.store a b c pr active (some v) (some t)))
        ]
      ]

  -- A status change of a known agent sets its status and reason, of an unknown one changes nothing
  -- and answers false; no other agent is touched.
  pub set_agent_status-status :
      (g : AgentRegistry F) (a b s : String) (r : Option String)
      → let (g', updated) = set_agent_status g a s r in
        (updated ≡ is_some (get_agent_status g a))
        × (get_agent_status g' b ≡ (
            if is_some (get_agent_status g a) && a == b then some (s, r) else get_agent_status g b))
  unfolding set_agent_status update_status get_agent_status get_status
  set_agent_status-status g a b s r = elim (Option-cases (Dict.get a g.store)) [
    | inl n ↦ (ground arith, ground arith)
    | inr (rec, e) ↦ (
      ground arith,
      ground (
        arith,
        get-set a b (record rec { status = s; suspension_reason = r }) g.store,
        eq_iff a b,
      ),
    )
  ]

module _ {F : Type 0} ⦃p : Prims F⦄ ⦃y : Pydantic F⦄ where
  write_activates :
      (g g' : AgentRegistry F) (rec : AgentRecord F) (q : RuntimeContractProjection F)
      → (t : InvariantSpec F) (a : ContractParameterAmendment F) (r : AmendmentResult F)
      → write_amendment g rec q t a ≡ ok (g', r)
      → get_agent_status g' a.agent_id ≡ some (active, reason_of (get_agent_status g a.agent_id))
  unfolding write_amendment get_agent_status
  write_activates g g' rec q t a r h =
      let (stored, _, hs) = >>=-eq-ok (amended_contract rec.contract q t a) _ h in
      let (contract, _, h') = >>=-eq-ok (json_dumps stored) _ hs in
      let (updated, found, h'') =
        >>=-eq-ok (get_agent_projection (amended_registry g rec contract a) a.agent_id) _ h' in
      let moved : amended_registry g rec contract a ≡ g' = cc in
      subst
        (λ x.
          get_status x.store a.agent_id ≡ some (active, reason_of (get_status g.store a.agent_id)))
        moved
        (unfold amended_registry in
          status-upsert g.store a.agent_id a.agent_id contract rec.priority active
            (some (kept_version rec.agent_version)) rec.session_token
          ∙ rw eq_refl refl)

  target_activates :
      (g g' : AgentRegistry F) (rec : AgentRecord F) (q : RuntimeContractProjection F)
      → (o : Option (InvariantSpec F)) (a : ContractParameterAmendment F) (r : AmendmentResult F)
      → amend_target g rec q a o ≡ ok (g', r)
      → r.accepted ≡ true
      → get_agent_status g' a.agent_id ≡ some (active, reason_of (get_agent_status g a.agent_id))
  unfolding amend_target
  target_activates g g' rec q none a r h acc = absurd (ground arith)
  target_activates g g' rec q (some t) a r h acc =
      let (why, _, h') = >>=-eq-ok (validate_amendment_patch t a.patch) _ h in go why h'
    where
      go :
          (why : Option String)
          → elim why [ some w ↦ ok (g, refused w) | none ↦ write_amendment g rec q t a ]
            ≡ ok (g', r)
          → get_agent_status g' a.agent_id
            ≡ some (active, reason_of (get_agent_status g a.agent_id))
      go none e = write_activates g g' rec q t a r e
      go (some w) e = absurd (ground arith)

  -- An accepted parameter amendment leaves the agent active, whatever its status was: it lifts a
  -- suspension, and keeps the suspension's reason.
  pub amendment-activates :
      (g g' : AgentRegistry F) (a : ContractParameterAmendment F) (r : AmendmentResult F)
      → apply_parameter_amendment g a ≡ ok (g', r)
      → r.accepted ≡ true
      → get_agent_status g' a.agent_id ≡ some (active, reason_of (get_agent_status g a.agent_id))
  unfolding apply_parameter_amendment
  amendment-activates g g' a r h acc = elim (Option-cases (Dict.get a.agent_id g.store)) [
    | inl n ↦ absurd (ground arith)
    | inr (rec, e) ↦
        let (q, _, h') =
          >>=-eq-ok (project_contract rec.contract) _ (rw (e, apply_parameter_amendment) at h) in
        target_activates g g' rec q (find_spec a.invariant_id q.invariants) a r h' acc
  ]
