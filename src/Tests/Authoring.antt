-- ===== src/Tests/Authoring.antt =====
-- The authoring rules of a contract at concrete data.
use decision_intelligence_ru.Prelude.{
  Bool, String, [], false, none, pos, refl, some, true, ◌∷◌, ◌≡◌, ◌↔◌,
}
use decision_intelligence_ru.Python.{Exc, Fields, Res, dict, end, field, num, ok, raise, str}
use decision_intelligence_ru.Python.Sample.{Sample, cents, sample}
use decision_intelligence_ru.Contract
use decision_intelligence_ru.Contract.{AggregatePolicy, CanonicalContract}
use decision_intelligence_ru.Contract.Inflate.{add_drawdown}
use decision_intelligence_ru.Contract.Integrity.{Report, Tools, loaded, verify_contract_yaml}
use decision_intelligence_ru.Contract.Intact.{IsIntact, IsPassed, verify_yaml-IsIntact}
use decision_intelligence_ru.Governance.Authoring.{policy_errors, validate_authoring_contract}
use decision_intelligence_ru.Governance.Authored.{IsAuthored, validate_authoring-IsAuthored}
use decision_intelligence_ru.Tests.{pydantic}

-- a weekly mean of refunds, with the threshold of the limit of one refund
abbrev refund_mean : AggregatePolicy Sample
refund_mean = record {
  policy_id = "AGG-1";
  metric = "max_refund_mean";
  window = "7d";
  operator = Contract.op_gt;
  threshold = cents (pos 5000);
  unit = "USD";
  response = Contract.suspended;
  statement = "Weekly refunds.";
}

abbrev refund_contract : CanonicalContract Sample
refund_contract = record {
  metadata = record { contract_id = "refunds"; version = "1.0.0"; owner = "risk@example.org" };
  subject = record { agent_id = "refunds"; role = Contract.executor; parent_agent_id = none };
  mission = "Refund orders.";
  authority = record {
    allowed_policy_types = "REFUND" ∷ [];
    resource_scope = [];
    limits = ("max_refund_usd", record { value = cents (pos 5000); unit = "USD" }) ∷ [];
    invariants = [];
  };
  responsibility = record {
    explainability = Contract.required;
    evidence_level = Contract.high;
    escalation = record {
      mode = Contract.mandatory;
      confidence_below = cents (pos 35);
      route_to = none;
    };
  };
  aggregate_policies = refund_mean ∷ [];
}

-- a dump of the agent alone
abbrev dump_agent : CanonicalContract Sample → Fields Sample
dump_agent c = field "subject" (dict (field "agent_id" (str c.subject.agent_id) end)) end

abbrev exc_name : Exc → String
exc_name e = "error"

duplicate_example :
    policy_errors (("max_refund_usd", cents (pos 5000)) ∷ []) (cents (pos 35)) refund_mean
    ≡ "AGGREGATE_DUP_LIMIT: AGG-1 duplicates authority.limits.max_refund_usd (single-transaction limit)"
      ∷ []
unfolding policy_errors decision_intelligence_ru.Contract.Bootstrap.error_if
    decision_intelligence_ru.Governance.Authoring.names_invariant
    decision_intelligence_ru.Python.Text.contains
    decision_intelligence_ru.Governance.Authoring.leaks_confidence
    decision_intelligence_ru.Governance.Authoring.duplicate_errors
    decision_intelligence_ru.Governance.Authoring.aggregate_duplicates_limit_key
    decision_intelligence_ru.Governance.Authoring.duplicates_lower
    decision_intelligence_ru.Governance.Authoring.stem
    decision_intelligence_ru.Python.Text.remove_all
duplicate_example = refl

own_threshold_example :
    policy_errors (("max_refund_usd", cents (pos 9000)) ∷ []) (cents (pos 35)) refund_mean ≡ []
unfolding policy_errors decision_intelligence_ru.Contract.Bootstrap.error_if
    decision_intelligence_ru.Governance.Authoring.names_invariant
    decision_intelligence_ru.Python.Text.contains
    decision_intelligence_ru.Governance.Authoring.leaks_confidence
    decision_intelligence_ru.Governance.Authoring.duplicate_errors
own_threshold_example = refl

validate_authoring-IsAuthored_example :
    (validate_authoring_contract exc_name dump_agent refund_contract ≡ ok [])
    ↔ IsAuthored exc_name dump_agent refund_contract
validate_authoring-IsAuthored_example =
    validate_authoring-IsAuthored exc_name dump_agent refund_contract

-- a drawdown of 0.04 is 4.00 percent points
inflated_drawdown :
    add_drawdown (field "max_drawdown_limit" (num (cents (pos 4))) end) end
    ≡ ok (field "max_drawdown_limit_pct" (num (cents (pos 400))) end)
unfolding add_drawdown decision_intelligence_ru.Python.get_field
    decision_intelligence_ru.Python.to_float decision_intelligence_ru.Python.set_field
    decision_intelligence_ru.Contract.Inflate.percent_points
inflated_drawdown = refl

-- a loader that takes its text as the agent's id, and a schema that takes the sample contract
abbrev tools : Tools Sample
tools = record {
  load = λ s. loaded (dict (field "agent_id" (str s) end));
  validate = λ raw. ok refund_contract;
  dump = dump_agent;
  digest = λ raw. "0a1b";
  exc_text = exc_name;
  type_name = λ v. "int";
}

abbrev yaml_text : String
yaml_text = "# a comment\nrefunds\n"

-- whether the checks pass
abbrev passes : Res (Report Sample) → Bool
passes (ok report) = report.integrity_ok
passes (raise exc) = false

intact_passes : passes (verify_contract_yaml tools yaml_text none (some end)) ≡ true
unfolding verify_contract_yaml decision_intelligence_ru.Contract.Integrity.parse_contract_yaml
    decision_intelligence_ru.Contract.Integrity.strip_yaml_comments
    decision_intelligence_ru.Python.Text.join decision_intelligence_ru.Prelude.keep
    decision_intelligence_ru.Python.Text.split_lines
    decision_intelligence_ru.Contract.Integrity.parsed_value
    decision_intelligence_ru.Contract.Integrity.parse_report
    decision_intelligence_ru.Contract.Integrity.schema_report
    decision_intelligence_ru.Contract.Inflate.from_raw
    decision_intelligence_ru.Contract.Normalize.normalize_contract_dict
    decision_intelligence_ru.Python.dict_or_empty decision_intelligence_ru.Python.get_field
    decision_intelligence_ru.Python.truthy
    decision_intelligence_ru.Contract.Normalize.normalize_authority
    decision_intelligence_ru.Contract.Normalize.nest_exclusions
    decision_intelligence_ru.Contract.Normalize.take_over
    decision_intelligence_ru.Contract.Normalize.nest_invariants
    decision_intelligence_ru.Python.drop_field
    decision_intelligence_ru.Contract.Normalize.gather_limits
    decision_intelligence_ru.Contract.Normalize.normalize_responsibility
    decision_intelligence_ru.Contract.Normalize.escalation_dict
    decision_intelligence_ru.Contract.Integrity.checked_report
    decision_intelligence_ru.Contract.Bootstrap.validate_bootstrap
    decision_intelligence_ru.Contract.Bootstrap.error_if
    decision_intelligence_ru.Contract.Bootstrap.role_errors
    decision_intelligence_ru.Contract.Bootstrap.required_errors
    decision_intelligence_ru.Contract.Presets.get_preset decision_intelligence_ru.Dict.get
    decision_intelligence_ru.Contract.Bootstrap.preset_name Contract.numeric_limits
    Contract.positive_limits decision_intelligence_ru.Contract.Bootstrap.limit_errors
    decision_intelligence_ru.Contract.Integrity.not_failed
    decision_intelligence_ru.Contract.Aggregates.canonical_response
    decision_intelligence_ru.Contract.Aggregates.listed_policies
    decision_intelligence_ru.Contract.Aggregates.named_policies
    decision_intelligence_ru.Contract.Aggregates.named_policy
    decision_intelligence_ru.Contract.Aggregates.normalize_aggregate_policies
    decision_intelligence_ru.Contract.Aggregates.normalize_aggregate_policy_entry
    decision_intelligence_ru.Contract.Aggregates.set_response
    decision_intelligence_ru.Contract.Bootstrap.missing_error
    decision_intelligence_ru.Contract.Bootstrap.missing_keys
    decision_intelligence_ru.Contract.Candidates.both_fields
    decision_intelligence_ru.Contract.Candidates.collect
    decision_intelligence_ru.Contract.Candidates.collect_bound
    decision_intelligence_ru.Contract.Candidates.collect_leaf
    decision_intelligence_ru.Contract.Candidates.crossed
    decision_intelligence_ru.Contract.Candidates.either
    decision_intelligence_ru.Contract.Candidates.is_and
    decision_intelligence_ru.Contract.Candidates.lower_max
    decision_intelligence_ru.Contract.Candidates.nesting
    decision_intelligence_ru.Contract.Candidates.normalize_authority_invariants
    decision_intelligence_ru.Contract.Candidates.normalize_entries
    decision_intelligence_ru.Contract.Candidates.normalize_invariant
    decision_intelligence_ru.Contract.Candidates.op_text
    decision_intelligence_ru.Contract.Candidates.py_max
    decision_intelligence_ru.Contract.Candidates.py_min
    decision_intelligence_ru.Contract.Candidates.raise_min
    decision_intelligence_ru.Contract.Candidates.range_fields
    decision_intelligence_ru.Contract.Candidates.range_invariant_from_candidate
    decision_intelligence_ru.Contract.Candidates.range_of
    decision_intelligence_ru.Contract.Candidates.rename_field
    decision_intelligence_ru.Contract.Candidates.same_field
    decision_intelligence_ru.Contract.Candidates.set_kinds
    decision_intelligence_ru.Contract.Candidates.set_reason
    decision_intelligence_ru.Contract.Candidates.set_some
    decision_intelligence_ru.Contract.Candidates.variable_name
    decision_intelligence_ru.Contract.Integrity.bootstrap_check
    decision_intelligence_ru.Contract.Integrity.content_digest
    decision_intelligence_ru.Contract.Integrity.expected_check
    decision_intelligence_ru.Contract.Integrity.hash_check
    decision_intelligence_ru.Contract.Normalize.canonical_fields
    decision_intelligence_ru.Contract.Normalize.get_or
    decision_intelligence_ru.Contract.Normalize.is_limit_key
    decision_intelligence_ru.Contract.Normalize.limit_value
    decision_intelligence_ru.Contract.Normalize.move_limit
    decision_intelligence_ru.Contract.Normalize.move_limits
    decision_intelligence_ru.Contract.Normalize.normalize_governance
    decision_intelligence_ru.Contract.Normalize.normalize_limits
    decision_intelligence_ru.Contract.Normalize.normalize_metadata
    decision_intelligence_ru.Contract.Normalize.normalize_mission
    decision_intelligence_ru.Contract.Normalize.normalize_subject
    decision_intelligence_ru.Contract.Normalize.set_default
    decision_intelligence_ru.Contract.Normalize.set_parent
    decision_intelligence_ru.Contract.Normalize.set_policies
    decision_intelligence_ru.Contract.Normalize.update_limits Contract.limit_unit
    Contract.normalize_limit_key decision_intelligence_ru.Prelude.mem
    decision_intelligence_ru.Python.Text.contains decision_intelligence_ru.Python.Text.ends_with
    decision_intelligence_ru.Python.Text.first_chars decision_intelligence_ru.Python.eqv
    decision_intelligence_ru.Python.find_field decision_intelligence_ru.Python.set_field
    decision_intelligence_ru.Python.to_text decision_intelligence_ru.Python.update_fields
intact_passes = refl

verify_yaml-IsIntact_example :
    IsPassed tools (verify_contract_yaml tools yaml_text none (some end))
    ↔ IsIntact tools none (some end) yaml_text
verify_yaml-IsIntact_example = verify_yaml-IsIntact tools yaml_text none (some end)
