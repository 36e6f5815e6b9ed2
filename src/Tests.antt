-- ===== src/Tests.antt =====
-- Concrete data for the tests: a pydantic that reads the fields it is given and fills in the rest,
-- and sample rules, contracts and proposals.
pub mod Rules
pub mod Decisions
pub mod Stores
pub mod Locking
pub mod Registries
pub mod Services
pub mod Flows
pub mod Contracts
pub mod Analyses
pub mod Authoring
use decision_intelligence_ru.Prelude.{
  Bool, List, Option, String, [], ap, false, map, none, pos, some, sym, true, ◌∙◌, ◌∷◌, ◌≡◌,
}
use decision_intelligence_ru.Python.{
  Fields, Res, Value, bool, dict, end, field, find_field, items, list, null, num, ok, raise, str,
}
use decision_intelligence_ru.Python.Sample.{Sample, cents, sample}
use decision_intelligence_ru.Models.{
  ContractParameterAmendment, ContractReleaseRef, InvariantSpec, PolicyProposal, Pydantic,
  RawProjection, RuntimeContractProjection, dump_spec, fields_of, of_list, value,
}

abbrev pub text_of : Option (Value Sample) → String
text_of (some (str s)) = s
text_of _ = ""

abbrev pub num_of : Option (Value Sample) → Option Sample
num_of (some (num x)) = some x
num_of _ = none

abbrev pub bool_of : Option (Value Sample) → Bool
bool_of (some (bool b)) = b
bool_of _ = false

abbrev pub list_of : Option (Value Sample) → List (Value Sample)
list_of (some (list vs)) = items vs
list_of _ = []

abbrev pub dict_of : Option (Value Sample) → Fields Sample
dict_of (some (dict fs)) = fs
dict_of _ = end

abbrev pub release_1 : ContractReleaseRef
release_1 = record {
  contract_id = "momentum";
  contract_version = "1.0.0";
  api_version = "v1";
  contract_hash = "9f86d0";
}

abbrev pub read_spec : Fields Sample → InvariantSpec Sample
read_spec fs = record {
  id = text_of (find_field "id" fs);
  type = text_of (find_field "type" fs);
  field = text_of (find_field "field" fs);
  min = num_of (find_field "min" fs);
  max = num_of (find_field "max" fs);
  allowed = list_of (find_field "allowed" fs);
  denied = list_of (find_field "denied" fs);
  match = text_of (find_field "match" fs);
  applies_to_policy_kinds = [];
  snapshot_path = none;
  expected = null;
  drift_envelope_pct = num_of (find_field "drift_envelope_pct" fs);
  reason_code = text_of (find_field "reason_code" fs);
  runtime_amendable = bool_of (find_field "runtime_amendable" fs);
  min_floor = num_of (find_field "min_floor" fs);
  max_ceiling = num_of (find_field "max_ceiling" fs);
  amend_ttl_seconds = none;
}

abbrev pub read_amendment : Fields Sample → ContractParameterAmendment Sample
read_amendment fs = record {
  agent_id = text_of (find_field "agent_id" fs);
  base_release = release_1;
  invariant_id = text_of (find_field "invariant_id" fs);
  patch = dict_of (find_field "patch" fs);
  actor_id = text_of (find_field "actor_id" fs);
  dfid = text_of (find_field "dfid" fs);
  created_at = pos 0;
  expires_at = none;
  impact_category = "LOW_IMPACT";
}

abbrev pub read_projection :
    Fields Sample
    → List (InvariantSpec Sample)
    → List (ContractParameterAmendment Sample)
    → RuntimeContractProjection Sample
read_projection fs invariants amendments = record {
  release = release_1;
  agent_id = text_of (find_field "agent_id" fs);
  role = "EXECUTOR";
  mission = text_of (find_field "mission" fs);
  allowed_policy_types = [];
  resource_scope = dict_of (find_field "resource_scope" fs);
  transaction_limits = dict_of (find_field "transaction_limits" fs);
  execution_conditions = dict_of (find_field "execution_conditions" fs);
  evidence_requirements = end;
  escalation_policy = dict_of (find_field "escalation_policy" fs);
  aggregate_policies = [];
  invariants = invariants;
  parameter_amendments = amendments;
}

abbrev pub make : RawProjection Sample → RuntimeContractProjection Sample
make raw = record {
  release = raw.release;
  agent_id = raw.agent_id;
  role = text_of (some raw.role);
  mission = raw.mission;
  allowed_policy_types = map (λ v. text_of (some v)) raw.allowed_policy_types;
  resource_scope = raw.resource_scope;
  transaction_limits = raw.transaction_limits;
  execution_conditions = raw.execution_conditions;
  evidence_requirements = raw.evidence_requirements;
  escalation_policy = raw.escalation_policy;
  aggregate_policies = raw.aggregate_policies;
  invariants = raw.invariants;
  parameter_amendments = [];
}

abbrev pub dump_each : List (InvariantSpec Sample) → List (Value Sample)
dump_each [] = []
dump_each (s ∷ ss) = dict (dump_spec s) ∷ dump_each ss

abbrev value_of : Res (InvariantSpec Sample) → InvariantSpec Sample → InvariantSpec Sample
value_of (ok s) d = s
value_of (raise e) d = d

ok_eq : (a b : InvariantSpec Sample) → ok a ≡ ok b → a ≡ b
ok_eq a b h = ap (λ r. value_of r a) h

abbrev projection_of :
    Res (RuntimeContractProjection Sample)
    → RuntimeContractProjection Sample
    → RuntimeContractProjection Sample
projection_of (ok s) d = s
projection_of (raise e) d = d

pub make-invariants :
    (raw : RawProjection Sample) (q : RuntimeContractProjection Sample)
    → ok (make raw) ≡ ok q
    → q.invariants ≡ raw.invariants
make-invariants raw q h = sym (ap (λ r. (projection_of r q).invariants) h)

pub read-id :
    (fs : Fields Sample) (s : InvariantSpec Sample) (i : String)
    → ok (read_spec fs) ≡ ok s
    → find_field "id" fs ≡ some (str i)
    → s.id ≡ i
read-id fs s i h e = sym (ap (λ r. (value_of r s).id) h) ∙ ap text_of e

pub read-field :
    (fs : Fields Sample) (s : InvariantSpec Sample) (i : String)
    → ok (read_spec fs) ≡ ok s
    → find_field "field" fs ≡ some (str i)
    → s.field ≡ i
read-field fs s i h e = sym (ap (λ r. (value_of r s).field) h) ∙ ap text_of e

pub read-max :
    (fs : Fields Sample) (s : InvariantSpec Sample) (x : Sample)
    → ok (read_spec fs) ≡ ok s
    → find_field "max" fs ≡ some (num x)
    → s.max ≡ some x
read-max fs s x h e = sym (ap (λ r. (value_of r s).max) h) ∙ ap num_of e

pub read-no_max :
    (fs : Fields Sample) (s : InvariantSpec Sample)
    → ok (read_spec fs) ≡ ok s
    → find_field "max" fs ≡ some null
    → s.max ≡ none
read-no_max fs s h e = sym (ap (λ r. (value_of r s).max) h) ∙ ap num_of e

instance abbrev pub pydantic : Pydantic Sample
pydantic = record {
  validate_spec = λ fs. ok (read_spec fs);
  validate_amendment = λ fs. ok (read_amendment fs);
  validate_projection = λ fs invariants amendments. ok (read_projection fs invariants amendments);
  make_projection = λ raw. ok (make raw);
  dump_projection = λ q. fields_of (
      ("release", dict end)
      ∷ ("agent_id", str q.agent_id)
      ∷ ("invariants", of_list (dump_each q.invariants))
      ∷ []);
  dump_amendment =
      λ a. fields_of (("invariant_id", str a.invariant_id) ∷ ("patch", dict a.patch) ∷ []);
  make_invariants = make-invariants;
  spec_id = read-id;
  spec_field = read-field;
  spec_max = read-max;
  spec_no_max = read-no_max;
}

-- an amendable limit of 100.00, of which the ceiling is 200.00
abbrev pub limit : InvariantSpec Sample
limit = record {
  id = "INV_LIMIT";
  type = "range";
  field = "params.order_value";
  min = some (cents (pos 0));
  max = some (cents (pos 10000));
  allowed = [];
  denied = [];
  match = "exact";
  applies_to_policy_kinds = [];
  snapshot_path = none;
  expected = null;
  drift_envelope_pct = none;
  reason_code = "CONTRACT_LIMIT_EXCEEDED";
  runtime_amendable = true;
  min_floor = some (cents (pos 0));
  max_ceiling = some (cents (pos 20000));
  amend_ttl_seconds = none;
}

-- a proposal of agent "a1" in flow "f1" to order for `value`
abbrev pub order : Sample → PolicyProposal Sample
order value = record {
  dfid = "f1";
  agent_id = "a1";
  policy_kind = "OPEN_LONG";
  params = field "order_value" (num value) end;
  context_ref = none;
  execution_constraints = end;
  valid_until = some (pos 2000000);
  created_at = pos 0;
  confidence = cents (pos 90);
  justification = none;
  explain_ref = none;
}

abbrev pub projection_with :
    List (ContractParameterAmendment Sample) → RuntimeContractProjection Sample
projection_with amendments =
    read_projection (field "agent_id" (str "a1") end) (limit ∷ []) amendments

-- the patch to a maximum of 150.00
abbrev pub patch_150 : Fields Sample
patch_150 = field "max" (num (cents (pos 15000))) end

abbrev pub raise_limit : ContractParameterAmendment Sample
raise_limit = read_amendment (
    fields_of
      (("agent_id", str "a1") ∷ ("invariant_id", str "INV_LIMIT") ∷ ("patch", dict patch_150) ∷ []))
