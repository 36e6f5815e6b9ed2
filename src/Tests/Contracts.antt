-- ===== src/Tests/Contracts.antt =====
-- The theorems on the contract tools at concrete data.
use decision_intelligence_ru.Models.{InvariantSpec}
use decision_intelligence_ru.Prelude.{
  All, Has, Bool, List, String, [], arith, false, keep, length, mem, none, pos, refl, some, true, ℕ,
  ◌++◌, ◌↔◌, ◌∷◌, ◌≡◌, ◌≤◌,
}
use decision_intelligence_ru.Python.{
  Exc, Fields, Value, cons, dict, end, field, list, nil, num, ok, str,
}
use decision_intelligence_ru.Python.Sample.{Sample, cents, sample}
use decision_intelligence_ru.Contract.{
  CanonicalContract, executor, high, mandatory, normalize_limit_key, required,
}
use decision_intelligence_ru.Contract.Bootstrap.{preset_name, validate_bootstrap}
use decision_intelligence_ru.Contract.Publishable.{IsPublishable, validate_bootstrap-IsPublishable}
use decision_intelligence_ru.Contract.Candidates.{
  Bounds, collect, nesting, nesting_fields, no_bounds,
}
use decision_intelligence_ru.Contract.Candidates.Meaning.{collect-inside, holds}
use decision_intelligence_ru.Contract.Candidates.Ranges.{inside}
use decision_intelligence_ru.Contract.Normalize.{normalize_limits}
use decision_intelligence_ru.Contract.InvariantIr.{
  validate_authority_invariant_conflicts, validate_contract_invariant_ir,
}
use decision_intelligence_ru.Contract.InvariantIr.Accepted.{
  HasKnownType, IsWellFormed, validate_ir-IsWellFormed,
}
use decision_intelligence_ru.InvariantCompile.{compile_authority_invariants}
use decision_intelligence_ru.Governance
use decision_intelligence_ru.Governance.{GovernanceClause, GovernanceContextPack}
use decision_intelligence_ru.Governance.Clauses.{clause_ids, fundamentals, select_clauses}
use decision_intelligence_ru.Governance.Clauses.Selected.{
  ByScore, IsExtra, IsTreated, optional, select_clauses-fundamentals,
}
use decision_intelligence_ru.Tests.{pydantic}

-- an executor of the preset "fraud_gate"
abbrev gate_contract : CanonicalContract Sample
gate_contract = record {
  metadata = record { contract_id = "gate"; version = "1.0.0"; owner = "risk@example.org" };
  subject = record { agent_id = "gate"; role = executor; parent_agent_id = none };
  mission = "Evaluate payments.";
  authority = record {
    allowed_policy_types = "ALLOW" ∷ "BLOCK" ∷ [];
    resource_scope = [];
    limits = ("max_transaction_usd", record { value = cents (pos 500000); unit = "USD" }) ∷ [];
    invariants = [];
  };
  responsibility = record {
    explainability = required;
    evidence_level = high;
    escalation = record { mode = mandatory; confidence_below = cents (pos 35); route_to = none };
  };
  aggregate_policies = [];
}

validate_bootstrap-IsPublishable_example :
    (validate_bootstrap gate_contract (some "fraud_gate") ≡ [])
    ↔ IsPublishable gate_contract (preset_name (some "fraud_gate"))
validate_bootstrap-IsPublishable_example =
    validate_bootstrap-IsPublishable gate_contract (some "fraud_gate")

gate_example : validate_bootstrap gate_contract (some "fraud_gate") ≡ []
unfolding validate_bootstrap decision_intelligence_ru.Contract.Bootstrap.error_if
    decision_intelligence_ru.Contract.Bootstrap.role_errors
    decision_intelligence_ru.Contract.Bootstrap.required_errors
    decision_intelligence_ru.Contract.Presets.get_preset decision_intelligence_ru.Dict.get
    preset_name decision_intelligence_ru.Contract.Bootstrap.missing_error
    decision_intelligence_ru.Contract.Bootstrap.missing_keys
    decision_intelligence_ru.Contract.numeric_limits
    decision_intelligence_ru.Contract.positive_limits
    decision_intelligence_ru.Contract.Bootstrap.limit_errors
gate_example = refl

-- { op: ge | le, variable: "amount", value }
abbrev comparison : String → ℕ → Value Sample
comparison op n = dict (
    field "op" (str op) (field "variable" (str "amount") (field "value" (num (cents (pos n))) end)))

-- 10.00 <= amount and (amount <= 90.00 and 20.00 <= amount)
abbrev predicate : Value Sample
predicate = dict (
    field "op" (str "and") (
      field "left" (comparison "ge" 1000) (
        field "right"
          (dict (
            field "op" (str "and")
              (field "left" (comparison "le" 9000) (field "right" (comparison "ge" 2000) end))))
          end)))

abbrev predicate_bounds : Bounds Sample
predicate_bounds = record { min = some (cents (pos 2000)); max = some (cents (pos 9000)) }

deep_enough : nesting predicate ≤ 5
unfolding nesting nesting_fields
deep_enough = ground arith

collect-inside_example :
    inside predicate_bounds (cents (pos 1500)) ≡ holds 5 predicate (cents (pos 1500))
unfolding decision_intelligence_ru.Contract.Candidates.Meaning.numbers
    decision_intelligence_ru.Contract.Candidates.is_and decision_intelligence_ru.Python.eqv
    decision_intelligence_ru.Python.get_field
    decision_intelligence_ru.Contract.Candidates.Meaning.leaf_numbers collect nesting
    decision_intelligence_ru.Contract.Candidates.collect_leaf
    decision_intelligence_ru.Contract.Candidates.op_text
    decision_intelligence_ru.Contract.Candidates.both_fields
    decision_intelligence_ru.Contract.Candidates.same_field
    decision_intelligence_ru.Contract.Candidates.collect_bound
    decision_intelligence_ru.Contract.Candidates.variable_name
    decision_intelligence_ru.Contract.Candidates.raise_min
    decision_intelligence_ru.Contract.Candidates.py_max
    decision_intelligence_ru.Contract.Candidates.lower_max
    decision_intelligence_ru.Contract.Candidates.py_min
collect-inside_example =
    collect-inside 5 predicate (cents (pos 1500)) "amount" predicate_bounds deep_enough refl refl
      refl

outside_example : inside predicate_bounds (cents (pos 1500)) ≡ false
unfolding inside
outside_example = refl

-- a limit under an alias, and a later one under the canonical name
abbrev two_limits : Fields Sample
two_limits =
    field "max_order_size" (num (cents (pos 100)))
      (field "max_order_size_usd" (num (cents (pos 200))) end)

-- a contract with one explicit range
abbrev ranged : Fields Sample
ranged =
    field "authority"
      (dict (
        field "invariants"
          (list (
            cons
              (dict (
                field "id" (str "INV_A") (
                  field "type" (str "range") (
                    field "field" (str "params.amount")
                      (field "max" (num (cents (pos 100))) end)))))
              nil))
          end))
      end

abbrev exc_text : Exc → String
exc_text e = "error"

ranged_passes : validate_contract_invariant_ir exc_text ranged ≡ ok []
unfolding validate_contract_invariant_ir decision_intelligence_ru.Contract.InvariantIr.ir_errors
    compile_authority_invariants decision_intelligence_ru.InvariantCompile.authority_of
    decision_intelligence_ru.Python.truthy decision_intelligence_ru.Python.get_field
    decision_intelligence_ru.Python.dict_or_empty decision_intelligence_ru.Python.list_or_empty
    decision_intelligence_ru.Python.to_list
    decision_intelligence_ru.InvariantCompile.validate_explicit
    decision_intelligence_ru.InvariantCompile.compile_sugar_invariants
    decision_intelligence_ru.InvariantCompile.limits_of validate_authority_invariant_conflicts
    decision_intelligence_ru.Contract.Normalize.normalize_contract_dict
    decision_intelligence_ru.Contract.Normalize.normalize_authority
    decision_intelligence_ru.Contract.Normalize.nest_exclusions
    decision_intelligence_ru.Contract.Normalize.take_over
    decision_intelligence_ru.Contract.Normalize.nest_invariants
    decision_intelligence_ru.Python.drop_field
    decision_intelligence_ru.Contract.Candidates.normalize_authority_invariants
    decision_intelligence_ru.Contract.Candidates.normalize_entries
    decision_intelligence_ru.Contract.Candidates.normalize_invariant
    decision_intelligence_ru.Contract.Candidates.range_invariant_from_candidate
    decision_intelligence_ru.Contract.Normalize.gather_limits
    decision_intelligence_ru.Python.set_field
    decision_intelligence_ru.Contract.Normalize.normalize_responsibility
    decision_intelligence_ru.Contract.Normalize.escalation_dict
    decision_intelligence_ru.Contract.Normalize.canonical_fields
    decision_intelligence_ru.Contract.Normalize.move_limits
    decision_intelligence_ru.Contract.Normalize.move_limit
    decision_intelligence_ru.Contract.Normalize.is_limit_key mem normalize_limit_key
    decision_intelligence_ru.Dict.get
    decision_intelligence_ru.Contract.InvariantIr.conflicts_with_sugar
    decision_intelligence_ru.Contract.InvariantIr.all_spec_errors
    decision_intelligence_ru.InvariantCompile.merge_explicit
    decision_intelligence_ru.Contract.InvariantIr.spec_errors
    decision_intelligence_ru.Contract.Bootstrap.error_if decision_intelligence_ru.Prelude.keep
    decision_intelligence_ru.InvariantCompile.add_slippage
    decision_intelligence_ru.InvariantCompile.as_float
    decision_intelligence_ru.InvariantCompile.add_list
    decision_intelligence_ru.InvariantCompile.add_limits
    decision_intelligence_ru.InvariantCompile.max_fields
    decision_intelligence_ru.Contract.InvariantIr.all_conflicts
    decision_intelligence_ru.Contract.InvariantIr.entry_conflicts normalize_limits
    decision_intelligence_ru.Contract.Normalize.update_limits
    decision_intelligence_ru.Contract.InvariantIr.field_conflicts
ranged_passes = refl

validate_ir-IsWellFormed_example :
    (compiled : List (InvariantSpec Sample)) × (compile_authority_invariants ranged ≡ ok compiled)
    × All (λ s. HasKnownType s → IsWellFormed s) compiled
validate_ir-IsWellFormed_example = validate_ir-IsWellFormed exc_text ranged ranged_passes

abbrev clause : String → Bool → List String → GovernanceClause
clause id fundamental presets = record {
  clause_id = id;
  source_document = "ROA_MANIFESTO";
  source_anchor = "3.1";
  statement = "A statement.";
  quote = "A quote.";
  quote_hash = "";
  constraint_class = Governance.process_rule;
  normative_level = Governance.mandatory;
  presets = presets;
  roles = [];
  fundamental = fundamental;
}

abbrev pack : GovernanceContextPack
pack = record {
  pack_id = "roa-dir-v1";
  version = "1";
  description = "";
  clauses =
      clause "b" false []
      ∷ clause "t" false ("trading" ∷ [])
      ∷ clause "f" true []
      ∷ clause "g" false ("generic" ∷ [])
      ∷ clause "a" false []
      ∷ [];
}

few_fundamentals : length (fundamentals pack) ≤ 3
unfolding fundamentals keep
few_fundamentals = ground arith

select_clauses-fundamentals_example :
    (extra : List GovernanceClause) × (select_clauses pack (some "trading") none 3
      ≡ fundamentals pack ++ extra)
    × All (IsExtra (some "trading") none (clause_ids (fundamentals pack))) extra
    × All (λ c. Has c (optional pack)) extra
    × ByScore (some "trading") none extra
    × All
        (IsTreated (some "trading") none 3 (select_clauses pack (some "trading") none 3))
        (optional pack)
    × (length (select_clauses pack (some "trading") none 3) ≤ 3)
select_clauses-fundamentals_example =
    select_clauses-fundamentals pack (some "trading") none 3 few_fundamentals

selected_example : clause_ids (select_clauses pack (some "trading") none 3) ≡ "f" ∷ "t" ∷ "a" ∷ []
unfolding clause_ids select_clauses decision_intelligence_ru.Prelude.take
    decision_intelligence_ru.Governance.Clauses.select_loop
    decision_intelligence_ru.Governance.Clauses.sort_scored decision_intelligence_ru.Prelude.keep
    decision_intelligence_ru.Governance.Clauses.insert_scored
    decision_intelligence_ru.Governance.Clauses.goes_first
    decision_intelligence_ru.Governance.Clauses.score
    decision_intelligence_ru.Governance.Clauses.is_wanted mem
    decision_intelligence_ru.Governance.Clauses.is_mandatory
    decision_intelligence_ru.Governance.Clauses.is_transaction
    decision_intelligence_ru.Governance.Clauses.choice fundamentals
    decision_intelligence_ru.Governance.Clauses.fits
    decision_intelligence_ru.Governance.Clauses.is_foreign
selected_example = refl
