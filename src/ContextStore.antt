-- ===== src/ContextStore.antt =====
-- src/dir_core/context_store.py over the backend `MemoryContextStorage` of
-- src/dir_core/storage/memory.py. A layer is stored as the dict that its JSON text stands for.
use decision_intelligence_ru.Prelude.{String, [], or_else, ◌∷◌}
use decision_intelligence_ru.Dict
use decision_intelligence_ru.Dict.{Dict}
use decision_intelligence_ru.Python.{Fields, dict, end, str, update_fields}
use decision_intelligence_ru.Models.{fields_of}

pub record ContextStore (F : Type 0) : Type 0 where
  pub sessions : Dict (Fields F)
  pub states : Dict (Fields F)

module _ {F : Type 0} where
  unfoldable pub get_session : ContextStore F → String → Fields F
  get_session c dfid = or_else (Dict.get dfid c.sessions) end

  unfoldable pub update_session : ContextStore F → String → Fields F → ContextStore F
  update_session c dfid updates = record c {
    sessions = Dict.set dfid (update_fields (get_session c dfid) updates) c.sessions;
  }

  unfoldable pub get_state : ContextStore F → String → Fields F
  get_state c agent_id = or_else (Dict.get agent_id c.states) end

  unfoldable pub update_state : ContextStore F → String → Fields F → ContextStore F
  update_state c agent_id updates = record c {
    states = Dict.set agent_id (update_fields (get_state c agent_id) updates) c.states;
  }

  -- its "meta"
  unfoldable pub compiled_meta : String → String → Fields F
  compiled_meta agent_id dfid =
      fields_of
        (("agent_id", str agent_id) ∷ ("dfid", str dfid) ∷ ("source", str "ContextStore") ∷ [])

  unfoldable pub compile_working_context : ContextStore F → String → String → Fields F
  compile_working_context c agent_id dfid = fields_of (
      ("meta", dict (compiled_meta agent_id dfid))
      ∷ ("session", dict (get_session c dfid))
      ∷ ("state", dict (get_state c agent_id))
      ∷ ("memory", dict end)
      ∷ ("artifacts", dict end)
      ∷ [])
