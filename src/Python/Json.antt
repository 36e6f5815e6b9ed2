-- ===== src/Python/Json.antt =====
-- `json.dumps` of a value, which raises TypeError on a datetime. The text stands as the value that
-- `json.loads` reads from it again.
use decision_intelligence_ru.Prelude.{Bool, false, if◌then◌else◌, true, ◌&&◌}
use decision_intelligence_ru.Python.{
  Fields, Res, Value, Values, bool, cons, datetime, dict, end, field, list, nil, null, num, ok,
  raise, str, type_error,
}

unfoldable mutual
  pub is_json : {F : Type 0} → Value F → Bool
  is_json null = true
  is_json (bool b) = true
  is_json (num x) = true
  is_json (str s) = true
  is_json (datetime t) = false
  is_json (list vs) = are_json vs
  is_json (dict fs) = fields_json fs

  pub are_json : {F : Type 0} → Values F → Bool
  are_json nil = true
  are_json (cons v vs) = is_json v && are_json vs

  pub fields_json : {F : Type 0} → Fields F → Bool
  fields_json end = true
  fields_json (field k v fs) = is_json v && fields_json fs

unfoldable pub json_dumps : {F : Type 0} → Fields F → Res (Fields F)
json_dumps fs = if fields_json fs then ok fs else raise type_error
