-- ===== src/Governor.antt =====
-- src/dir_core/intent_retry.py over the backend `MemoryIntentRetryStorage` of
-- src/dir_core/storage/memory.py. `max_retries` is a natural number: a negative one behaves as 0.
pub mod Counting
use decision_intelligence_ru.Prelude.{Bool, String, [], leb, or_else, ℕ, ◌+◌}
use decision_intelligence_ru.Dict
use decision_intelligence_ru.Dict.{Dict}

-- `MemoryIntentRetryStorage`
pub record MemoryIntentRetryStorage : Type 0 where
  pub counts : Dict ℕ

unfoldable pub get_count : MemoryIntentRetryStorage → String → ℕ
get_count s dfid = or_else (Dict.get dfid s.counts) 0

unfoldable pub set_count : MemoryIntentRetryStorage → String → ℕ → MemoryIntentRetryStorage
set_count s dfid count = record { counts = Dict.set dfid count s.counts }

unfoldable pub delete : MemoryIntentRetryStorage → String → MemoryIntentRetryStorage
delete s dfid = record { counts = Dict.pop dfid s.counts }

pub record IntentRetryGovernor : Type 0 where
  pub max_retries : ℕ
  pub storage : MemoryIntentRetryStorage

unfoldable pub new_governor : ℕ → IntentRetryGovernor
new_governor max_retries = record { max_retries = max_retries; storage = record { counts = [] } }

-- the governor, and the new count
unfoldable pub record_rejection : IntentRetryGovernor → String → IntentRetryGovernor × ℕ
record_rejection g dfid =
    let count = get_count g.storage dfid + 1 in
    (record g { storage = set_count g.storage dfid count }, count)

unfoldable pub should_abort : IntentRetryGovernor → String → Bool
should_abort g dfid = leb g.max_retries (get_count g.storage dfid)

unfoldable pub reset : IntentRetryGovernor → String → IntentRetryGovernor
reset g dfid = record g { storage = delete g.storage dfid }
