-- ===== src/Registry.antt =====
-- src/dir_core/agent_registry.py over the backend `MemoryAgentRegistryStorage` of
-- src/dir_core/storage/memory.py. A contract is stored as the dict that its JSON text stands for, and
-- `json.dumps` raises where it has no JSON text; the session token that `uuid4` draws is the argument `token`.
pub mod Version
pub mod Status
use decision_intelligence_ru.Prelude.{
  Bool, List, Option, String, [], false, if◌then◌else◌, none, not, pos, some, true, ℤ, ◌++◌, ◌==◌,
  ◌∷◌,
}
use decision_intelligence_ru.Registry.Version.{version_compatible}
use decision_intelligence_ru.Python.Json.{json_dumps}
use decision_intelligence_ru.Dict
use decision_intelligence_ru.Dict.{Dict}
use decision_intelligence_ru.Python.{
  Fields, Prims, Res, Value, dict, get_field, list_or_empty, null, ok, set_field, str, truthy,
  ◌>>=◌,
}
use decision_intelligence_ru.Models.{
  ContractParameterAmendment, InvariantSpec, Pydantic, RuntimeContractProjection, of_list,
}
use decision_intelligence_ru.ContractProjection.{project_contract}
use decision_intelligence_ru.Amendments.{resolve_expires_at, validate_amendment_patch}

pub record AgentRecord (F : Type 0) : Type 0 where
  pub contract : Fields F
  pub priority : ℤ
  pub status : String
  pub agent_version : Option String
  pub session_token : Option String
  pub suspension_reason : Option String

pub record AgentRegistry (F : Type 0) : Type 0 where
  pub supported_versions : String
  pub store : Dict (AgentRecord F)

pub record HandshakeResult : Type 0 where
  pub accepted : Bool
  pub session_token : Option String
  pub reason : Option String

pub record AmendmentResult (F : Type 0) : Type 0 where
  pub accepted : Bool
  pub reason : Option String
  pub projection : Option (RuntimeContractProjection F)

abbrev pub active : String
active = "ACTIVE"

-- the version that an amended record keeps: "1.0.0" where it has none
unfoldable pub kept_version : Option String → String
kept_version none = "1.0.0"
kept_version (some v) = if v == "" then "1.0.0" else v

module _ {F : Type 0} where
  -- the reason that a record keeps across an upsert
  unfoldable pub kept_reason : Option (AgentRecord F) → Option String
  kept_reason none = none
  kept_reason (some rec) = rec.suspension_reason

  unfoldable pub upsert_agent :
      Dict (AgentRecord F)
      → String
      → Fields F
      → ℤ
      → String
      → Option String
      → Option String
      → Dict (AgentRecord F)
  upsert_agent store agent_id contract priority status agent_version session_token =
      Dict.set agent_id
        (record {
          contract = contract;
          priority = priority;
          status = status;
          agent_version = agent_version;
          session_token = session_token;
          suspension_reason = kept_reason (Dict.get agent_id store);
        })
        store

  unfoldable pub update_status :
      Dict (AgentRecord F) → String → String → Option String → Dict (AgentRecord F) × Bool
  update_status store agent_id status reason = elim (Dict.get agent_id store) [
    | none ↦ (store, false)
    | some rec ↦
        (Dict.set agent_id (record rec { status = status; suspension_reason = reason }) store, true)
  ]

  unfoldable pub get_status : Dict (AgentRecord F) → String → Option (String × Option String)
  get_status store agent_id = elim (Dict.get agent_id store) [
    | none ↦ none
    | some rec ↦ some (rec.status, rec.suspension_reason)
  ]

  unfoldable pub list_active_agents : Dict (AgentRecord F) → List String
  list_active_agents [] = []
  list_active_agents ((aid, rec) ∷ store) =
      if rec.status == active then aid ∷ list_active_agents store else list_active_agents store

  unfoldable pub handshake :
      AgentRegistry F
      → String
      → Fields F
      → String
      → ℤ
      → String
      → Res (AgentRegistry F × HandshakeResult)
  handshake g agent_id contract agent_version priority token =
      if not (version_compatible agent_version g.supported_versions)
      then ok
          (g, record { accepted = false; session_token = none; reason = some "VERSION_MISMATCH" })
      else (json_dumps contract >>= λ contract_json. ok (
        record g {
          store =
              upsert_agent g.store agent_id contract_json priority active (some agent_version)
                (some token);
        },
        record { accepted = true; session_token = some token; reason = none },
      ))

  unfoldable pub register_projection :
      ⦃y : Pydantic F⦄
      → AgentRegistry F
      → RuntimeContractProjection F
      → String
      → ℤ
      → String
      → Res (AgentRegistry F × HandshakeResult)
  register_projection ⦃y⦄ g projection agent_version priority token =
      if projection.agent_id == ""
      then ok
          (g, record { accepted = false; session_token = none; reason = some "MISSING_AGENT_ID" })
      else handshake g projection.agent_id (y.dump_projection projection) agent_version priority
          token

  unfoldable pub register_agent : AgentRegistry F → String → Fields F → ℤ → Res (AgentRegistry F)
  register_agent g agent_id contract priority = json_dumps contract >>= λ contract_json.
      ok
        (record g { store = upsert_agent g.store agent_id contract_json priority active none none })

  unfoldable pub get_agent_contract : AgentRegistry F → String → Option (Fields F)
  get_agent_contract g agent_id = elim (Dict.get agent_id g.store) [
    | none ↦ none
    | some rec ↦ some rec.contract
  ]

  -- `get_schema(agent_id)`, with no kind: an unknown agent and an empty contract have none
  unfoldable pub get_schema : AgentRegistry F → String → Value F
  get_schema g agent_id = elim (get_agent_contract g agent_id) [
    | none ↦ null
    | some contract ↦ get_field "schema" contract
  ]

  unfoldable pub get_agent_priority : AgentRegistry F → String → ℤ
  get_agent_priority g agent_id = elim (Dict.get agent_id g.store) [
    | none ↦ pos 0
    | some rec ↦ rec.priority
  ]

  unfoldable pub set_agent_status :
      AgentRegistry F → String → String → Option String → AgentRegistry F × Bool
  set_agent_status g agent_id status reason =
      let (store, updated) = update_status g.store agent_id status reason in
      (record g { store = store }, updated)

  unfoldable pub get_agent_status : AgentRegistry F → String → Option (String × Option String)
  get_agent_status g agent_id = get_status g.store agent_id

  -- `next((spec for spec in specs if spec.id == id), None)`
  unfoldable pub find_spec : String → List (InvariantSpec F) → Option (InvariantSpec F)
  find_spec id [] = none
  find_spec id (s ∷ ss) = if s.id == id then some s else find_spec id ss

  abbrev pub refused : String → AmendmentResult F
  refused reason = record { accepted = false; reason = some reason; projection = none }

module _ {F : Type 0} ⦃p : Prims F⦄ ⦃y : Pydantic F⦄ where
  unfoldable pub get_agent_projection :
      AgentRegistry F → String → Res (Option (RuntimeContractProjection F))
  get_agent_projection g agent_id = elim (get_agent_contract g agent_id) [
    | none ↦ ok none
    | some contract ↦ (project_contract contract >>= λ q. ok (some q))
  ]

  -- `isoformat()` of the expiry, or None
  expiry_value : Option ℤ → Value F
  expiry_value none = null
  expiry_value (some t) = str (p.iso t)

  -- the contract with the amendment appended
  unfoldable pub amended_contract :
      Fields F
      → RuntimeContractProjection F
      → InvariantSpec F
      → ContractParameterAmendment F
      → Res (Fields F)
  unfolding expiry_value
  amended_contract contract projection target amendment = do
    let stored =
        if truthy (get_field "invariants" contract) then contract else y.dump_projection projection
    amendments ← list_or_empty (get_field "parameter_amendments" stored)
    let payload =
        set_field "expires_at"
          (expiry_value (resolve_expires_at amendment target.amend_ttl_seconds))
          (y.dump_amendment amendment)
    ok (set_field "parameter_amendments" (of_list (amendments ++ dict payload ∷ [])) stored)

  -- the upsert of `apply_parameter_amendment`
  unfoldable pub amended_registry :
      AgentRegistry F → AgentRecord F → Fields F → ContractParameterAmendment F → AgentRegistry F
  amended_registry g rec contract amendment = record g {
    store =
        upsert_agent g.store amendment.agent_id contract rec.priority active
          (some (kept_version rec.agent_version)) rec.session_token;
  }

  unfoldable pub write_amendment :
      AgentRegistry F
      → AgentRecord F
      → RuntimeContractProjection F
      → InvariantSpec F
      → ContractParameterAmendment F
      → Res (AgentRegistry F × AmendmentResult F)
  write_amendment g rec projection target amendment =
      amended_contract rec.contract projection target amendment >>= λ stored.
      json_dumps stored >>= λ contract.
      get_agent_projection (amended_registry g rec contract amendment) amendment.agent_id
      >>= λ updated. ok (
        amended_registry g rec contract amendment,
        record { accepted = true; reason = none; projection = updated },
      )

  unfoldable pub amend_target :
      AgentRegistry F
      → AgentRecord F
      → RuntimeContractProjection F
      → ContractParameterAmendment F
      → Option (InvariantSpec F)
      → Res (AgentRegistry F × AmendmentResult F)
  amend_target g rec projection amendment none = ok (g, refused "INVARIANT_NOT_FOUND")
  amend_target g rec projection amendment (some target) =
      validate_amendment_patch target amendment.patch >>= λ reason. elim reason [
        | some why ↦ ok (g, refused why)
        | none ↦ write_amendment g rec projection target amendment
      ]

  -- An exception after the write leaves the write: its state is not in the result.
  unfoldable pub apply_parameter_amendment :
      AgentRegistry F → ContractParameterAmendment F → Res (AgentRegistry F × AmendmentResult F)
  apply_parameter_amendment g amendment = elim (Dict.get amendment.agent_id g.store) [
    | none ↦ ok (g, refused "AGENT_NOT_FOUND")
    | some rec ↦
        (project_contract rec.contract >>= λ projection.
        amend_target g rec projection amendment
          (find_spec amendment.invariant_id projection.invariants))
  ]
