-- ===== src/Lib.antt =====
-- A verification of the decision kernel, the Python package src/dir_core of this repository, and of
-- the contract tools beside it, tools/contract: what an agent proposes (a policy proposal) is checked
-- by deterministic code before anything acts on it.
--
-- The parts, and how they work together:
--   Runtime            src/dir_core/runtime.py: `evaluate_proposal`, the entry point. It asks the
--                      registry for the agent's status, stores the web context, prepares the context
--                      and the contract, calls the DIM and records the verdict.
--   Dim                src/dir_core/dim.py: `validate_proposal`, the gates in their order, and its
--                      writes to the governor and the context.
--   Invariants         src/dir_core/invariants.py: range, set and state_match rules.
--   InvariantCompile   src/dir_core/invariant_compile.py: the rules that a contract compiles to.
--   ContractProjection src/dir_core/contract_projection.py: a contract mapping read as a projection.
--   Amendments         src/dir_core/amendments.py: patches of rules, and the rules they leave.
--   Registry           src/dir_core/agent_registry.py: agents, versions, statuses, amendments.
--   Governor           src/dir_core/intent_retry.py: the rejection budget of a flow.
--   Escalation         src/dir_core/escalation.py: the budget of human escalations.
--   Idempotency        src/dir_core/idempotency.py: keys and the guarded call.
--   Locks              src/dir_core/resource_lock.py: reservations of resources.
--   Saga               src/dir_core/saga.py: dirty flows and their compensation.
--   Ledger             src/dir_core/ledger.py with a storage: verified intents.
--   Arbitration        src/dir_core/arbitration.py: the winner among proposals.
--   ContextStore       src/dir_core/context_store.py: sessions, states, the compiled context.
--   Models             src/dir_core/models.py and data_types.py: the records and codes.
--   DecisionFlow       src/dir_core/models.py: the container of one decision and its timeline.
--   Lifecycle          src/dir_core/lifecycle.py: transitions of a flow, which reset the Governor.
--   Jit                src/dir_core/jit.py: has the live state drifted since a snapshot.
--   Wakeup             src/dir_core/wakeup.py: predicates asked before an agent is woken.
--   EventBus           src/dir_core/event_bus.py: subscriptions and dispatch, and the logging wrapper.
--   Pci                src/dir_core/pci.py: the evidence hash of a proof-carrying intent.
-- Behind the kernel stand the tools that author the contracts it enforces:
--   Contract           tools/contract/schema.py: the canonical contract, and under it Presets and
--                      Bootstrap (the rules of a first contract), Flatten and Inflate (the kernel's flat
--                      form), Integrity (a contract in YAML, parsed and checked),
--                      Candidates, Aggregates and Normalize (what other forms of a contract become)
--                      and InvariantIr (the checks of its rules, over InvariantCompile).
--   Governance         tools/contract/governance: the clauses that go into a prompt, and the checks of
--                      an analysis: its references, its candidates, its predicates, and when publishing it
--                      is blocked; and the authoring rules of a contract.
-- The stores stand over the in-memory backends of src/dir_core/storage/memory.py. Each is a record or
-- an insertion-ordered dictionary (Dict), and an operation returns the store that it leaves. The names
-- are those of the source, without a leading underscore. Python holds the values of the language that
-- the code uses (None, bool, numbers, str, datetime, lists and dicts) and its exceptions; a function
-- that may raise returns a `Res`.
--
-- What is left open, as a parameter:
--   * floats are a type with the record `Prims` of their operations, with two laws on `<`; so a NaN is
--     not ruled out. Case mapping, strip, str() of a value and isoformat() are in the same record.
--   * pydantic is the record `Pydantic` of its calls; the laws on it say that a field given as a text
--     or a number validates to it. The JSON text of a stored value stands as the value.
--   * the digest and the canonical JSON of an idempotency key, custom validators, saga callbacks,
--     session tokens, availability providers, the digest of an evidence hash, number formats, the
--     text of an exception, what an event's callback does, the solver that an analysis asks, the
--     YAML library and the clock are arguments.
-- A `datetime` is an integer of UTC microseconds. The theorems on locks are on whole amounts, in a range
-- where the named hypotheses `Exact` hold of floats, as they do of IEEE doubles up to 2 ^ 53.
--
-- The loops are recursions on the lists that they walk. The loop of `acquire` runs until a deadline:
-- it is a recursion on the list of what the backend answers in the turns that the clock allows, any
-- list, and an empty list is a deadline that has passed. The search of a predicate for bounds, which
-- recurses on what it finds in dicts, runs on fuel: the nesting of the predicate, which is enough.
--
-- Not modelled: the SQLite backends, what a callback does to the event bus while it runs, the factory
-- of event buses, the ledger without a storage, methods of Python values that a
-- rule's path could name through getattr, a list of pairs given to dict(), time stamps of audit and
-- ledger rows, the printed report of a flow, logging, the samples, and of the contract tools the web
-- application, the database, the interviews, the rendering of prompts, the coverage and
-- consistency rules of a governance analysis, and what pydantic alone checks.
pub mod Prelude
pub mod Dict
pub mod Python
pub mod Models
pub mod Invariants
pub mod Governor
pub mod InvariantCompile
pub mod ContractProjection
pub mod Amendments
pub mod Dim
pub mod Registry
pub mod Idempotency
pub mod Locks
pub mod Arbitration
pub mod Escalation
pub mod ContextStore
pub mod Runtime
pub mod Saga
pub mod Ledger
pub mod Jit
pub mod Wakeup
pub mod EventBus
pub mod Pci
pub mod Lifecycle
pub mod DecisionFlow
pub mod Contract
pub mod Governance
pub mod Tests
