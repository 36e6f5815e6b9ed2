-- ===== src/Contract/Aggregates.antt =====
-- tools/contract/schema.py: the aggregate policies of a contract before their validation.
use decision_intelligence_ru.Prelude.{String, if◌then◌else◌, ◌==◌}
use decision_intelligence_ru.Python.{
  Fields, Prims, Value, Values, bool, cons, dict, end, field, get_field, list, nil, null, num,
  of_bool, set_field, str, to_text, update_fields,
}
use decision_intelligence_ru.Contract.Candidates.{rename_field}

module _ {F : Type 0} ⦃p : Prims F⦄ where
  unfoldable pub canonical_response : String → Fields F → Fields F
  canonical_response upper out =
      if upper == "SUSPEND"
      then set_field "response" (str "SUSPENDED") out
      else if upper == "ESCALATE"
      then set_field "response" (str "ESCALATION_ONLY") out
      else out

  -- `isinstance(response, str)` and what follows it
  unfoldable pub set_response : Value F → Fields F → Fields F
  set_response (str s) out = canonical_response (p.upper (p.strip s)) out
  set_response _ out = out

  unfoldable pub normalize_aggregate_policy_entry : Fields F → Fields F
  normalize_aggregate_policy_entry entry =
      let out = rename_field "response" "on_breach" entry in
      set_response (get_field "response" out) out

  abbrev pub statement : String → Value F
  statement s = dict (field "statement" (str s) end)

  -- an item of a dict of policies
  unfoldable pub named_policy : String → Value F → Value F
  named_policy key (dict entry) =
      dict
        (normalize_aggregate_policy_entry (update_fields (field "policy_id" (str key) end) entry))
  named_policy key (num x) = dict (
      normalize_aggregate_policy_entry
        (field "policy_id" (str key) (field "threshold" (num x) end)))
  named_policy key (bool b) = dict (
      normalize_aggregate_policy_entry
        (field "policy_id" (str key) (field "threshold" (num (of_bool b)) end)))
  named_policy key entry =
      dict (field "policy_id" (str key) (field "statement" (str (to_text entry)) end))

  unfoldable pub named_policies : Fields F → Values F
  named_policies end = nil
  named_policies (field key entry entries) = cons (named_policy key entry) (named_policies entries)

  -- the loop over a list of policies: None is left out
  unfoldable pub listed_policies : Values F → Values F
  listed_policies nil = nil
  listed_policies (cons null entries) = listed_policies entries
  listed_policies (cons (dict entry) entries) =
      cons (dict (normalize_aggregate_policy_entry entry)) (listed_policies entries)
  listed_policies (cons entry entries) = cons (statement (to_text entry)) (listed_policies entries)

  unfoldable pub normalize_aggregate_policies : Value F → Values F
  normalize_aggregate_policies null = nil
  normalize_aggregate_policies (str s) = cons (statement s) nil
  normalize_aggregate_policies (dict entries) = named_policies entries
  normalize_aggregate_policies (list entries) = listed_policies entries
  normalize_aggregate_policies value = cons (statement (to_text value)) nil
