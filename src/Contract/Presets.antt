-- ===== src/Contract/Presets.antt =====
-- tools/contract/presets.py: the templates that contracts start from.
use decision_intelligence_ru.Python.Text.{sort_texts}
use decision_intelligence_ru.Prelude.{List, String, [], or_else, ◌∷◌}
use decision_intelligence_ru.Python.{Prims}
use decision_intelligence_ru.Dict
use decision_intelligence_ru.Dict.{Dict}
use decision_intelligence_ru.Contract.{
  ContractRole, EvidenceLevel, executor, high, interface, low, medium, monitor, strategist,
}

pub record PresetDefinition (F : Type 0) : Type 0 where
  pub name : String
  pub description : String
  pub default_role : ContractRole
  pub required_limit_keys : List String
  pub suggested_limits : Dict F
  pub allowed_policy_types : List String
  pub authorized_instruments : List String
  pub mission_template : String
  pub evidence_level : EvidenceLevel
  pub escalate_on_uncertainty : F

module _ {F : Type 0} ⦃p : Prims F⦄ where
  abbrev pub trading_preset : PresetDefinition F
  trading_preset = record {
    name = "trading";
    description = "Crypto or equities execution with order size and drawdown caps.";
    default_role = executor;
    required_limit_keys = "max_order_size_usd" ∷ "max_drawdown_limit_pct" ∷ [];
    suggested_limits =
        ("max_order_size_usd", p.dec 50000 0) ∷ ("max_drawdown_limit_pct", p.dec 4 0) ∷ [];
    allowed_policy_types = "BUY" ∷ "SELL" ∷ "HOLD" ∷ "CLOSE_POSITION" ∷ "REDUCE_SIZE" ∷ [];
    authorized_instruments = "ETH-USD" ∷ "BTC-USD" ∷ [];
    mission_template = "Execute market orders safely within defined capital and drawdown limits.";
    evidence_level = high;
    escalate_on_uncertainty = p.dec 7 1;
  }

  abbrev pub fraud_gate_preset : PresetDefinition F
  fraud_gate_preset = record {
    name = "fraud_gate";
    description = "Payment fraud gate: approve, block, or challenge transactions.";
    default_role = executor;
    required_limit_keys = "max_transaction_usd" ∷ [];
    suggested_limits = ("max_transaction_usd", p.dec 5000 0) ∷ [];
    allowed_policy_types = "ALLOW" ∷ "BLOCK" ∷ "CHALLENGE" ∷ [];
    authorized_instruments = [];
    mission_template =
        "Evaluate payment transactions and recommend ALLOW, BLOCK, or CHALLENGE within transaction exposure limits.";
    evidence_level = high;
    escalate_on_uncertainty = p.dec 35 2;
  }

  abbrev pub underwriting_preset : PresetDefinition F
  underwriting_preset = record {
    name = "underwriting";
    description = "Insurance underwriting with premium and coverage limits.";
    default_role = executor;
    required_limit_keys = "max_premium_usd" ∷ "max_limit_usd" ∷ [];
    suggested_limits =
        ("max_premium_usd", p.dec 100000 0) ∷ ("max_limit_usd", p.dec 1000000 0) ∷ [];
    allowed_policy_types = "QUOTE" ∷ "DECLINE" ∷ "REFER" ∷ "BIND" ∷ [];
    authorized_instruments = [];
    mission_template =
        "Underwrite risks within premium and coverage authority; escalate borderline cases.";
    evidence_level = high;
    escalate_on_uncertainty = p.dec 65 2;
  }

  abbrev pub retention_refund_preset : PresetDefinition F
  retention_refund_preset = record {
    name = "retention_refund";
    description = "Customer retention and refund decisions.";
    default_role = executor;
    required_limit_keys = "max_refund_usd" ∷ "max_discount_pct" ∷ [];
    suggested_limits = ("max_refund_usd", p.dec 50 0) ∷ ("max_discount_pct", p.dec 15 0) ∷ [];
    allowed_policy_types = "REFUND" ∷ "DISCOUNT" ∷ "DENY" ∷ "ESCALATE" ∷ [];
    authorized_instruments = [];
    mission_template =
        "Resolve customer complaints with refunds or discounts only within policy limits.";
    evidence_level = medium;
    escalate_on_uncertainty = p.dec 7 1;
  }

  abbrev pub generic_preset : PresetDefinition F
  generic_preset = record {
    name = "generic";
    description = "Domain-agnostic executor; you must name at least one irreversible limit.";
    default_role = executor;
    required_limit_keys = [];
    suggested_limits = ("max_order_size_usd", p.dec 1000 0) ∷ [];
    allowed_policy_types = "ACTION" ∷ "HOLD" ∷ "ESCALATE" ∷ [];
    authorized_instruments = [];
    mission_template = "Perform bounded decisions within explicit irreversible limits.";
    evidence_level = medium;
    escalate_on_uncertainty = p.dec 7 1;
  }

  abbrev pub interface_dmz_preset : PresetDefinition F
  interface_dmz_preset = record {
    name = "interface_dmz";
    description = "Edge INTERFACE agent with zero execution authority.";
    default_role = interface;
    required_limit_keys = [];
    suggested_limits = [];
    allowed_policy_types = [];
    authorized_instruments = [];
    mission_template = "Normalize inbound external payloads; emit bounded input artifacts only.";
    evidence_level = low;
    escalate_on_uncertainty = p.dec 5 1;
  }

  abbrev pub strategist_preset : PresetDefinition F
  strategist_preset = record {
    name = "strategist";
    description = "High-level planner delegating to executors.";
    default_role = strategist;
    required_limit_keys = "max_order_size_usd" ∷ [];
    suggested_limits = ("max_order_size_usd", p.dec 100000 0) ∷ [];
    allowed_policy_types = "DELEGATE" ∷ "HOLD" ∷ "ESCALATE" ∷ [];
    authorized_instruments = [];
    mission_template = "Synthesize long-horizon context and delegate tactical decisions.";
    evidence_level = medium;
    escalate_on_uncertainty = p.dec 6 1;
  }

  abbrev pub monitor_preset : PresetDefinition F
  monitor_preset = record {
    name = "monitor";
    description = "Read-only post-execution auditor; may trigger circuit breakers.";
    default_role = monitor;
    required_limit_keys = [];
    suggested_limits = [];
    allowed_policy_types = "SUSPEND_AGENT" ∷ "ALERT" ∷ "NOOP" ∷ [];
    authorized_instruments = [];
    mission_template =
        "Audit agent explain histories asynchronously; detect drift and trigger breakers.";
    evidence_level = medium;
    escalate_on_uncertainty = p.dec 5 1;
  }

  abbrev pub presets : Dict (PresetDefinition F)
  presets =
      ("trading", trading_preset)
      ∷ ("fraud_gate", fraud_gate_preset)
      ∷ ("underwriting", underwriting_preset)
      ∷ ("retention_refund", retention_refund_preset)
      ∷ ("generic", generic_preset)
      ∷ ("interface_dmz", interface_dmz_preset)
      ∷ ("strategist", strategist_preset)
      ∷ ("monitor", monitor_preset)
      ∷ []

  unfoldable pub get_preset : String → PresetDefinition F
  get_preset name = or_else (Dict.get name presets) generic_preset

-- `sorted(PRESETS.keys())`
unfoldable pub list_preset_names : (F : Type 0) → ⦃p : Prims F⦄ → List String
list_preset_names F = sort_texts (Dict.keys (presets {F = F}))
