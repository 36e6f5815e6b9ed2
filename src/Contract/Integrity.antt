-- ===== src/Contract/Integrity.antt =====
-- tools/contract/integrity.py: a contract in YAML text, parsed and checked. The YAML library is the
-- argument `load`; `validate` and `dump` are pydantic's, `digest` is the SHA-256 of the canonical JSON,
-- `exc_text` and `type_name` the texts of an exception and of a value's type.
use decision_intelligence_ru.Prelude.{
  Bool, List, Option, String, [], false, if◌then◌else◌, is_empty, keep, none, not, some, true, ◌&&◌,
  ◌++◌, ◌==◌, ◌∷◌,
}
use decision_intelligence_ru.Python.{Exc, Fields, Prims, Res, Value, dict, null, ok, raise, ◌>>=◌}
use decision_intelligence_ru.Python.Text.{first_chars, join, split_lines, ◌+s◌}
use text.Mathlib.Text.{starts_with}
use decision_intelligence_ru.Contract.{CanonicalContract, ContractRole}
use decision_intelligence_ru.Contract.Bootstrap.{validate_bootstrap}
use decision_intelligence_ru.Contract.Inflate.{from_raw}

-- What `yaml.safe_load` does: a value, a YAMLError with its text, or another exception.
pub data Loaded (F : Type 0) : Type 0 where
  loaded : Value F → Loaded F
  yaml_error : String → Loaded F
  load_raises : Exc → Loaded F

-- `Tuple[Optional[Dict], List[str]]`, of which one part is always empty
pub data Parsed (F : Type 0) : Type 0 where
  parsed : Fields F → Parsed F
  parse_error : String → Parsed F

-- The entry "sha256" of the hash check is the report's.
pub record Check : Type 0 where
  pub passed : Option Bool
  pub detail : String

pub record Checks : Type 0 where
  pub yaml_parse : Check
  pub schema : Check
  pub bootstrap : Check
  pub content_hash : Check

-- the entry "contract" of a report
pub data Described (F : Type 0) : Type 0 where
  not_parsed : Described F
  raw_data : Fields F → Described F
  summary : String → String → String → ContractRole → Described F

pub record Report (F : Type 0) : Type 0 where
  pub integrity_ok : Bool
  pub checks : Checks
  pub errors : List String
  pub contract : Described F
  pub sha256 : Option String

-- the functions outside the code
pub record Tools (F : Type 0) : Type 0 where
  pub load : String → Loaded F
  pub validate : Fields F → Res (CanonicalContract F)
  pub dump : CanonicalContract F → Fields F
  pub digest : Fields F → String
  pub exc_text : Exc → String
  pub type_name : Value F → String

abbrev pub unchecked : Check
unchecked = record { passed = some false; detail = "" }

abbrev pub no_hash : Check
no_hash = record { passed = none; detail = "" }

unfoldable pub bootstrap_check : List String → Check
bootstrap_check [] = record { passed = some true; detail = "Bootstrap rules passed" }
bootstrap_check (error ∷ errors) = record {
  passed = some false;
  detail = join "; " (error ∷ errors);
}

-- the comparison of the contract's hash with the hash of the expected revision, or its failure
unfoldable pub hash_check : (Exc → String) → String → Res String → Check × List String
hash_check exc_text digest (ok expected) =
    if expected == digest
    then (record { passed = some true; detail = "YAML matches stored revision hash" }, [])
    else (
      record {
        passed = some false;
        detail =
            "YAML hash "
            +s first_chars 12 digest
            +s "… differs from revision "
            +s first_chars 12 expected
            +s "…";
      },
      "content_hash mismatch vs stored contract_json" ∷ [],
    )
hash_check exc_text digest (raise exc) = (
  record { passed = some false; detail = "Could not hash stored revision: " +s exc_text exc },
  exc_text exc ∷ [],
)

-- `check["ok"] is not False`
unfoldable pub not_failed : Option Bool → Bool
not_failed none = true
not_failed (some b) = b

-- `line.lstrip()` starts with "#" exactly where `line.strip()` does, by the argument `strip`
unfoldable pub strip_yaml_comments : (String → String) → String → String
strip_yaml_comments strip s =
    join "\n" (keep (λ line. not (starts_with (strip line) "#")) (split_lines s))

module _ {F : Type 0} ⦃p : Prims F⦄ (tools : Tools F) where
  -- what `yaml.safe_load` gave
  unfoldable pub parsed_value : Loaded F → Res (Parsed F)
  parsed_value (load_raises exc) = raise exc
  parsed_value (yaml_error message) = ok (parse_error ("YAML parse error: " +s message))
  parsed_value (loaded (dict data_fields)) = ok (parsed data_fields)
  parsed_value (loaded null) = ok (parse_error "YAML parsed to null")
  parsed_value (loaded v) =
      ok (parse_error ("YAML root must be a mapping, got " +s tools.type_name v))

  unfoldable pub parse_contract_yaml : String → Res (Parsed F)
  parse_contract_yaml yaml_text =
      let cleaned = p.strip (strip_yaml_comments p.strip yaml_text) in
      if cleaned == ""
      then ok (parse_error "YAML is empty after removing comments")
      else parsed_value (tools.load cleaned)

  -- `contract_content_hash` of the dump
  unfoldable pub content_digest : CanonicalContract F → String
  content_digest contract = tools.digest (tools.dump contract)

  -- the hash of the stored revision, where one is given
  unfoldable pub expected_check : String → Option (Fields F) → Check × List String
  expected_check digest none =
      (record { passed = some true; detail = "SHA-256 computed (no revision comparison)" }, [])
  expected_check digest (some expected_json) = hash_check tools.exc_text digest (do
    expected_contract ← from_raw tools.validate expected_json
    ok (content_digest expected_contract))

  -- the report on a contract that the schema takes, from its bootstrap errors and its hash check
  unfoldable pub checked_report : CanonicalContract F → List String → Check × List String → Report F
  checked_report contract bootstrap_errors (hash, hash_errors) = record {
    integrity_ok = is_empty bootstrap_errors && not_failed hash.passed;
    checks = record {
      yaml_parse = record { passed = some true; detail = "YAML parsed successfully" };
      schema = record {
        passed = some true;
        detail = "CanonicalContract valid for agent_id=" +s contract.subject.agent_id;
      };
      bootstrap = bootstrap_check bootstrap_errors;
      content_hash = hash;
    };
    errors = bootstrap_errors ++ hash_errors;
    contract =
        summary contract.subject.agent_id contract.metadata.version contract.metadata.owner
          contract.subject.role;
    sha256 = some (content_digest contract);
  }

  -- the report on a dict, from what the schema makes of it
  unfoldable pub schema_report :
      Option String → Option (Fields F) → Fields F → Res (CanonicalContract F) → Report F
  schema_report preset expected_json raw (raise exc) = record {
    integrity_ok = false;
    checks = record {
      yaml_parse = record { passed = some true; detail = "YAML parsed successfully" };
      schema = record { passed = some false; detail = tools.exc_text exc };
      bootstrap = unchecked;
      content_hash = no_hash;
    };
    errors = ("schema: " +s tools.exc_text exc) ∷ [];
    contract = raw_data raw;
    sha256 = none;
  }
  schema_report preset expected_json raw (ok contract) =
      checked_report contract (validate_bootstrap contract preset)
        (expected_check (content_digest contract) expected_json)

  unfoldable pub parse_report : Option String → Option (Fields F) → Parsed F → Report F
  parse_report preset expected_json (parse_error message) = record {
    integrity_ok = false;
    checks = record {
      yaml_parse = record { passed = some false; detail = message };
      schema = unchecked;
      bootstrap = unchecked;
      content_hash = no_hash;
    };
    errors = message ∷ [];
    contract = not_parsed;
    sha256 = none;
  }
  parse_report preset expected_json (parsed raw) =
      schema_report preset expected_json raw (from_raw tools.validate raw)

  -- An exception of the YAML library that is no YAMLError goes through.
  unfoldable pub verify_contract_yaml : String → Option String → Option (Fields F) → Res (Report F)
  verify_contract_yaml yaml_text preset expected_json = do
    data_or_error ← parse_contract_yaml yaml_text
    ok (parse_report preset expected_json data_or_error)
