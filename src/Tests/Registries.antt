-- ===== src/Tests/Registries.antt =====
-- The theorems on the agent registry at concrete data.
use decision_intelligence_ru.Prelude.{
  [], false, if◌then◌else◌, is_some, none, pos, refl, some, true, ◌∷◌, ◌≡◌,
}
use decision_intelligence_ru.Dict.{Dict}
use decision_intelligence_ru.Python.{Fields, Res, datetime, dict, end, ok, raise, str, type_error}
use decision_intelligence_ru.Python.Sample.{Sample, sample}
use decision_intelligence_ru.Models.{dump_spec, fields_of, of_list}
use decision_intelligence_ru.Registry.{
  AgentRecord, AgentRegistry, AmendmentResult, active, apply_parameter_amendment, get_agent_status,
  handshake, refused, set_agent_status,
}
use decision_intelligence_ru.Registry.Status.{
  amendment-activates, Handshaken, handshake-Handshaken, reason_of, set_agent_status-status,
}
use decision_intelligence_ru.Dict
use decision_intelligence_ru.Python.Json.{fields_json}
use decision_intelligence_ru.Tests.{limit, pydantic, raise_limit}

-- agent "a1" with the sample rule in its contract, under a status and its reason
abbrev signed : Fields Sample
signed = fields_of (
    ("release", dict end)
    ∷ ("agent_id", str "a1")
    ∷ ("invariants", of_list (dict (dump_spec limit) ∷ []))
    ∷ [])

abbrev suspended : AgentRecord Sample
suspended = record {
  contract = signed;
  priority = pos 0;
  status = "SUSPENDED";
  agent_version = some "1.0.0";
  session_token = none;
  suspension_reason = some "manual";
}

abbrev registry : AgentRegistry Sample
registry = record { supported_versions = "1.x"; store = ("a1", suspended) ∷ [] }

-- a contract with a time in it
abbrev timed : Fields Sample
timed = fields_of (("agent_id", str "a1") ∷ ("signed_at", datetime (pos 0)) ∷ [])

handshake-Handshaken_example :
    Handshaken registry "a1" timed "1.2.0" "t" "a1"
      (handshake registry "a1" timed "1.2.0" (pos 0) "t")
handshake-Handshaken_example = handshake-Handshaken registry "a1" timed "1.2.0" (pos 0) "t" "a1"

set_agent_status-status_example :
    ((set_agent_status registry "a1" "RETIRED" none).1 ≡ is_some (get_agent_status registry "a1"))
    × (get_agent_status (set_agent_status registry "a1" "RETIRED" none).0 "a1" ≡ (
        if is_some (get_agent_status registry "a1")
        then some ("RETIRED", none)
        else get_agent_status registry "a1"))
unfolding get_agent_status decision_intelligence_ru.Registry.get_status Dict.get
set_agent_status-status_example = set_agent_status-status registry "a1" "a1" "RETIRED" none

-- the registry and the result that the amendment leaves
abbrev taken :
    Res (AgentRegistry Sample × AmendmentResult Sample)
    → AgentRegistry Sample × AmendmentResult Sample
taken (ok r) = r
taken (raise e) = (registry, refused "")

abbrev after : AgentRegistry Sample × AmendmentResult Sample
after = taken (apply_parameter_amendment registry raise_limit)

amended : apply_parameter_amendment registry raise_limit ≡ ok (after.0, after.1)
unfolding apply_parameter_amendment Dict.get decision_intelligence_ru.Python.find_field
    decision_intelligence_ru.ContractProjection.project_contract
    decision_intelligence_ru.ContractProjection.is_projection_dump
    decision_intelligence_ru.ContractProjection.parse_projection_dump
    decision_intelligence_ru.Python.list_or_empty decision_intelligence_ru.Python.truthy
    decision_intelligence_ru.Python.get_field decision_intelligence_ru.Python.to_list
    decision_intelligence_ru.ContractProjection.validate_each
    decision_intelligence_ru.ContractProjection.ensure_projection_invariants
    decision_intelligence_ru.Registry.amend_target decision_intelligence_ru.Registry.find_spec
    dump_spec decision_intelligence_ru.Amendments.validate_amendment_patch
    decision_intelligence_ru.Amendments.check_shape decision_intelligence_ru.Prelude.keep
    decision_intelligence_ru.Prelude.mem decision_intelligence_ru.Amendments.check_number
    decision_intelligence_ru.Python.to_float decision_intelligence_ru.Amendments.check_max
    decision_intelligence_ru.Amendments.check_allowed decision_intelligence_ru.Amendments.check_ttl
    decision_intelligence_ru.Registry.write_amendment
    decision_intelligence_ru.Registry.amended_contract
    decision_intelligence_ru.Amendments.resolve_expires_at
    decision_intelligence_ru.Python.Json.json_dumps decision_intelligence_ru.Python.Json.fields_json
    decision_intelligence_ru.Python.Json.is_json decision_intelligence_ru.Python.Json.are_json
    decision_intelligence_ru.Registry.get_agent_projection
    decision_intelligence_ru.Registry.get_agent_contract
    decision_intelligence_ru.Registry.amended_registry
    decision_intelligence_ru.Registry.upsert_agent Dict.set
    decision_intelligence_ru.Python.set_field
amended = refl

amendment_taken : after.1.accepted ≡ true
unfolding apply_parameter_amendment Dict.get decision_intelligence_ru.Python.find_field
    decision_intelligence_ru.ContractProjection.project_contract
    decision_intelligence_ru.ContractProjection.is_projection_dump
    decision_intelligence_ru.ContractProjection.parse_projection_dump
    decision_intelligence_ru.Python.list_or_empty decision_intelligence_ru.Python.truthy
    decision_intelligence_ru.Python.get_field decision_intelligence_ru.Python.to_list
    decision_intelligence_ru.ContractProjection.validate_each
    decision_intelligence_ru.ContractProjection.ensure_projection_invariants
    decision_intelligence_ru.Registry.amend_target decision_intelligence_ru.Registry.find_spec
    dump_spec decision_intelligence_ru.Amendments.validate_amendment_patch
    decision_intelligence_ru.Amendments.check_shape decision_intelligence_ru.Prelude.keep
    decision_intelligence_ru.Prelude.mem decision_intelligence_ru.Amendments.check_number
    decision_intelligence_ru.Python.to_float decision_intelligence_ru.Amendments.check_max
    decision_intelligence_ru.Amendments.check_allowed decision_intelligence_ru.Amendments.check_ttl
    decision_intelligence_ru.Registry.write_amendment
    decision_intelligence_ru.Registry.amended_contract
    decision_intelligence_ru.Amendments.resolve_expires_at
    decision_intelligence_ru.Python.Json.json_dumps decision_intelligence_ru.Python.Json.fields_json
    decision_intelligence_ru.Python.Json.is_json decision_intelligence_ru.Python.Json.are_json
    decision_intelligence_ru.Registry.get_agent_projection
    decision_intelligence_ru.Registry.get_agent_contract
    decision_intelligence_ru.Registry.amended_registry
    decision_intelligence_ru.Registry.upsert_agent Dict.set
    decision_intelligence_ru.Python.set_field
amendment_taken = refl

amendment-activates_example :
    get_agent_status after.0 "a1" ≡ some (active, reason_of (get_agent_status registry "a1"))
unfolding decision_intelligence_ru.Python.find_field
amendment-activates_example =
    amendment-activates registry after.0 raise_limit after.1 amended amendment_taken
