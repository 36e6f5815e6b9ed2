-- ===== src/Governance.antt =====
-- tools/contract/governance: the clauses of a governance pack, the analysis that a language model
-- returns for a contract, and the issues that validation finds in it (models.py).
pub mod Clauses
pub mod Analysis
pub mod Predicates
pub mod Unblocked
pub mod Authoring
pub mod NamedAfter
pub mod Authored
use decision_intelligence_ru.Prelude.{Bool, List, String}

pub data ConstraintClass : Type 0 where
  architectural_boundary transaction_invariant evidence_obligation : ConstraintClass
  aggregate_policy process_rule : ConstraintClass

pub data NormativeLevel : Type 0 where
  mandatory recommended informational : NormativeLevel

pub record GovernanceClause : Type 0 where
  pub clause_id : String
  pub source_document : String
  pub source_anchor : String
  pub statement : String
  pub quote : String
  pub quote_hash : String
  pub constraint_class : ConstraintClass
  pub normative_level : NormativeLevel
  pub presets : List String
  pub roles : List String
  pub fundamental : Bool

pub record GovernanceContextPack : Type 0 where
  pub pack_id : String
  pub version : String
  pub description : String
  pub clauses : List GovernanceClause
