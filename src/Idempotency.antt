-- ===== src/Idempotency.antt =====
-- src/dir_core/idempotency.py over the backend `MemoryIdempotencyStorage` of
-- src/dir_core/storage/memory.py. The digest `hashlib.sha256(...).hexdigest()` and the canonical JSON
-- of the parameters are the arguments `digest` and `canonical`. A guarded call is `perform`: what it
-- returns, with the world it leaves; `none` is Python's None.
pub mod Keys
pub mod Once
use decision_intelligence_ru.Prelude.{Option, String, none, some}
use decision_intelligence_ru.Dict
use decision_intelligence_ru.Dict.{Dict}
use decision_intelligence_ru.Python.Text.{◌+s◌}

-- the text that is hashed
unfoldable pub raw_key : String → String → String → String
raw_key dfid step_id canonical = dfid +s ":" +s step_id +s ":" +s canonical

unfoldable pub idempotency_key : (String → String) → String → String → String → String
idempotency_key digest dfid step_id canonical = digest (raw_key dfid step_id canonical)

-- `get` of the backend: a stored None reads as no entry
unfoldable pub get_cached : {A : Type 0} → String → Dict (Option A) → Option A
get_cached key cache = elim (Dict.get key cache) [ none ↦ none | some result ↦ result ]

-- `IdempotencyGuard.run` behind the key: the cache, the world and the result
unfoldable pub run_keyed :
    {A W : Type 0}
    → String
    → (W → Option A × W)
    → Dict (Option A)
    → W
    → Dict (Option A) × W × Option A
run_keyed key perform cache world = elim (get_cached key cache) [
  | some cached ↦ (cache, world, some cached)
  | none ↦ (Dict.set key (perform world).0 cache, (perform world).1, (perform world).0)
]

unfoldable pub run :
    {A W P : Type 0}
    → (String → String)
    → (P → String)
    → String
    → String
    → P
    → (P → W → Option A × W)
    → Dict (Option A)
    → W
    → Dict (Option A) × W × Option A
run digest canonical dfid step_id params perform =
    run_keyed (idempotency_key digest dfid step_id (canonical params)) (perform params)
