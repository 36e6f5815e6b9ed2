-- ===== src/Invariants.antt =====
-- src/dir_core/invariants.py: the declarative invariants of a contract, evaluated on a proposal.
-- What `getattr` finds on Python's own objects (the methods of a text, say) is not modelled: a path
-- that goes on behind a value that is no dict resolves to None.
pub mod Sound
pub mod Legal
pub mod Unordered
use decision_intelligence_ru.Prelude.{
  Bool, List, Option, String, [], false, if◌then◌else◌, is_empty, mem, none, not, or_else, some,
  true, ℤ, ◌&&◌, ◌==◌, ◌||◌, ◌∷◌,
}
use decision_intelligence_ru.Python.{
  Fields, Prims, Res, Value, datetime, dict, eqv, find_field, get_field, is_null, le, member, null,
  num, ok, raise, str, to_float,
}
use decision_intelligence_ru.Python.Text.{contains, remove_prefix, split_dots, ◌+s◌}
use decision_intelligence_ru.Models.{
  InvariantSpec, PolicyProposal, Reason, RuntimeContractProjection, code,
  contract_parameter_missing, opt_str, text, value,
}

pub record InvariantEvaluationFailure : Type 0 where
  pub reason : Reason
  pub invariant_id : String

module _ {F : Type 0} where
  unfoldable pub opt_datetime : Option ℤ → Value F
  opt_datetime none = null
  opt_datetime (some t) = datetime t

  -- `getattr(proposal, name, None)`
  unfoldable pub attribute : PolicyProposal F → String → Value F
  attribute p name =
      if name == "dfid"
      then str p.dfid
      else if name == "agent_id"
      then str p.agent_id
      else if name == "policy_kind"
      then str p.policy_kind
      else if name == "params"
      then dict p.params
      else if name == "context_ref"
      then opt_str p.context_ref
      else if name == "execution_constraints"
      then dict p.execution_constraints
      else if name == "valid_until"
      then opt_datetime p.valid_until
      else if name == "created_at"
      then datetime p.created_at
      else if name == "confidence"
      then num p.confidence
      else if name == "justification"
      then opt_str p.justification
      else if name == "explain_ref"
      then opt_str p.explain_ref
      else null

  -- one turn of the loop of `get_nested_value`
  unfoldable pub nested_step : Value F → String → Value F
  nested_step (dict fs) part = get_field part fs
  nested_step _ part = null

  unfoldable pub nested_from : Value F → List String → Value F
  nested_from current [] = current
  nested_from current (part ∷ parts) = nested_from (nested_step current part) parts

  -- `get_nested_value` of a mapping
  unfoldable pub get_nested_value : Value F → String → Value F
  get_nested_value current path = nested_from current (split_dots path)

  unfoldable pub nested_attribute : PolicyProposal F → List String → Value F
  nested_attribute p [] = null
  nested_attribute p (part ∷ parts) = nested_from (attribute p part) parts

  -- `get_nested_value` of a proposal
  unfoldable pub get_proposal_value : PolicyProposal F → String → Value F
  get_proposal_value p path = nested_attribute p (split_dots path)

  abbrev pub failure : InvariantSpec F → Reason → InvariantEvaluationFailure
  failure rule reason = record { reason = reason; invariant_id = rule.id }

module _ {F : Type 0} ⦃p : Prims F⦄ where
  -- `rule.min is not None and actual < float(rule.min)`
  abbrev pub below : Option F → F → Bool
  below none x = false
  below (some m) x = p.lt x m

  -- `rule.max is not None and actual > float(rule.max)`
  abbrev pub above : Option F → F → Bool
  above none x = false
  above (some m) x = p.lt m x

  -- the part of `evaluate_range_rule` behind `actual = float(value)`
  unfoldable pub check_range : InvariantSpec F → F → Option InvariantEvaluationFailure
  check_range rule actual =
      if below rule.min actual
      then some (failure rule (text rule.reason_code))
      else if above rule.max actual
      then some (failure rule (text rule.reason_code))
      else none

  unfoldable pub range_value : InvariantSpec F → Value F → Option InvariantEvaluationFailure
  range_value rule value =
      if is_null value
      then some (failure rule (code contract_parameter_missing))
      else elim (to_float value) [
        | ok actual ↦ check_range rule actual
        | raise e ↦ some (failure rule (text ("Invalid numeric field for invariant " +s rule.id)))
      ]

  unfoldable pub evaluate_range_rule :
      InvariantSpec F → PolicyProposal F → Option InvariantEvaluationFailure
  evaluate_range_rule rule proposal = range_value rule (get_proposal_value proposal rule.field)

  unfoldable pub folded_in : String → List (Value F) → Bool
  folded_in s [] = false
  folded_in s (str c ∷ rest) = contains (p.casefold c) (p.casefold s) || folded_in s rest
  folded_in s (_ ∷ rest) = folded_in s rest

  unfoldable pub folded_eq : String → List (Value F) → Bool
  folded_eq s [] = false
  folded_eq s (str c ∷ rest) = (p.casefold c == p.casefold s) || folded_eq s rest
  folded_eq s (_ ∷ rest) = folded_eq s rest

  -- the computation of `denied_match`
  unfoldable pub denied_match : InvariantSpec F → Value F → Bool
  denied_match rule (str s) =
      if is_empty rule.denied
      then false
      else if rule.match == "substring"
      then folded_in s rule.denied
      else folded_eq s rule.denied
  denied_match rule v = if is_empty rule.denied then false else member v rule.denied

  unfoldable pub set_value : InvariantSpec F → Value F → Option InvariantEvaluationFailure
  set_value rule value =
      if is_null value
      then some (failure rule (code contract_parameter_missing))
      else if denied_match rule value
      then some (failure rule (text rule.reason_code))
      else if not (is_empty rule.allowed) && not (member value rule.allowed)
      then some (failure rule (text rule.reason_code))
      else none

  unfoldable pub evaluate_set_rule :
      InvariantSpec F → PolicyProposal F → Option InvariantEvaluationFailure
  evaluate_set_rule rule proposal = set_value rule (get_proposal_value proposal rule.field)

  -- `rule.drift_envelope_pct in (None, 0, 0.0)`
  abbrev pub no_envelope : Option F → Bool
  no_envelope none = true
  no_envelope (some d) = p.eq d (p.dec 0 0)

  -- the drift in percent of the live value, in absolute terms at a live zero
  unfoldable pub delta_pct : F → F → F
  delta_pct proposed live =
      if p.eq live (p.dec 0 0)
      then p.abs (p.sub proposed live)
      else p.mul (p.div (p.abs (p.sub proposed live)) (p.abs live)) (p.dec 100 0)

  -- the part of `evaluate_state_match_rule` behind the conversions: `envelope` is
  -- `float(rule.drift_envelope_pct or 0.0)`
  unfoldable pub within_envelope : F → F → F → Bool
  within_envelope envelope proposed live =
      if le envelope (p.dec 0 0)
      then p.eq proposed live
      else not (p.lt envelope (delta_pct proposed live))

  -- `float(live) if live is not None else None`
  unfoldable pub live_number : Value F → Res (Option F)
  live_number null = ok none
  live_number v = elim (to_float v) [ ok x ↦ ok (some x) | raise e ↦ raise e ]

  -- the `try` of `evaluate_state_match_rule` and what follows it
  unfoldable pub match_numbers :
      InvariantSpec F → Value F → Value F → Option InvariantEvaluationFailure
  match_numbers rule proposed live =
      let mismatch = some (failure rule (text rule.reason_code)) in
      let by_value = if eqv proposed live then none else mismatch in
      elim (to_float proposed) [
        | raise e ↦ by_value
        | ok x ↦ elim (live_number live) [
          | raise e ↦ by_value
          | ok none ↦ some (failure rule (code contract_parameter_missing))
          | ok (some y) ↦
              if within_envelope (or_else rule.drift_envelope_pct (p.dec 0 0)) x y
              then none
              else mismatch
        ]
      ]

  unfoldable pub match_values :
      InvariantSpec F → Value F → Value F → Option InvariantEvaluationFailure
  match_values rule proposed live =
      if is_null proposed
      then some (failure rule (code contract_parameter_missing))
      else if not (is_null rule.expected) && no_envelope rule.drift_envelope_pct
      then (if not (eqv proposed rule.expected) || not (eqv live rule.expected)
          then some (failure rule (text rule.reason_code))
          else none)
      else match_numbers rule proposed live

  -- `get_nested_value(context.get("state", context), path.removeprefix("state."))`
  unfoldable pub live_value : Fields F → String → Value F
  live_value context path =
      get_nested_value (or_else (find_field "state" context) (dict context))
        (remove_prefix 6 "state." path)

  unfoldable pub evaluate_state_match_rule :
      InvariantSpec F → PolicyProposal F → Fields F → Option InvariantEvaluationFailure
  evaluate_state_match_rule rule proposal context =
      let path = or_else rule.snapshot_path "" in
      if path == ""
      then some (
          failure rule
            (text ("Invalid state_match invariant " +s rule.id +s ": missing snapshot_path")))
      else match_values rule (get_proposal_value proposal rule.field) (live_value context path)

  -- `rule.applies_to_policy_kinds and proposal.policy_kind not in rule.applies_to_policy_kinds`
  unfoldable pub skips : InvariantSpec F → PolicyProposal F → Bool
  skips rule proposal =
      not (is_empty rule.applies_to_policy_kinds)
      && not (mem proposal.policy_kind rule.applies_to_policy_kinds)

  -- the chain on `rule.type` in the loop body of `evaluate_invariants`
  unfoldable pub evaluate_rule :
      InvariantSpec F → PolicyProposal F → Fields F → Option InvariantEvaluationFailure
  evaluate_rule rule proposal context =
      if rule.type == "range"
      then evaluate_range_rule rule proposal
      else if rule.type == "set"
      then evaluate_set_rule rule proposal
      else if rule.type == "state_match"
      then evaluate_state_match_rule rule proposal context
      else some (failure rule (text ("Unsupported invariant type: " +s rule.type)))

  -- the loop of `evaluate_invariants`
  unfoldable pub evaluate_all :
      List (InvariantSpec F) → PolicyProposal F → Fields F → List InvariantEvaluationFailure
  evaluate_all [] proposal context = []
  evaluate_all (rule ∷ rules) proposal context =
      let rest = evaluate_all rules proposal context in
      if skips rule proposal
      then rest
      else elim (evaluate_rule rule proposal context) [ none ↦ rest | some f ↦ f ∷ rest ]

  unfoldable pub evaluate_invariants :
      PolicyProposal F → RuntimeContractProjection F → Fields F → List InvariantEvaluationFailure
  evaluate_invariants proposal projection context =
      evaluate_all projection.invariants proposal context
