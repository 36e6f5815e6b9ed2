-- ===== src/Locks.antt =====
-- src/dir_core/resource_lock.py over the backend `MemoryResourceLockStorage` of
-- src/dir_core/storage/memory.py. The turns of `acquire` that the clock lets begin are the list
-- `rounds`: what the backend's `acquire_batch` answers in each, which is always true in memory. The
-- in-memory backend's lock makes each of its calls one step.
pub mod Whole
pub mod Capacity
pub mod Traces
pub mod Progress
use decision_intelligence_ru.Prelude.{
  Bool, List, String, [], false, if◌then◌else◌, or_else, true, ◌==◌, ◌∷◌,
}
use decision_intelligence_ru.Dict
use decision_intelligence_ru.Dict.{Dict}
use decision_intelligence_ru.Python.{Prims}
use decision_intelligence_ru.Python.Text.{sort_texts}

pub data LockResult : Type 0 where
  acquired insufficient_liquidity resource_contention_timeout : LockResult

-- the locks of every flow: its resources and their amounts
abbrev pub Locks : Type 0 → Type 0
Locks F = Dict (Dict F)

module _ {F : Type 0} where
  unfoldable pub acquire_batch : String → Dict F → Locks F → Locks F
  acquire_batch dfid resources locks = Dict.set dfid resources locks

  unfoldable pub release : String → Locks F → Locks F
  release dfid locks = Dict.pop dfid locks

module _ {F : Type 0} ⦃p : Prims F⦄ where
  -- `locks.get(resource_id, 0.0)`
  unfoldable pub amount : String → Dict F → F
  amount rid locks = or_else (Dict.get rid locks) (p.dec 0 0)

  -- the generator in `get_locked_amount`
  unfoldable pub held : String → String → Locks F → List F
  held rid exclude [] = []
  held rid exclude ((d, locks) ∷ rest) =
      let others = held rid exclude rest in
      if d == exclude then others else amount rid locks ∷ others

  unfoldable pub get_locked_amount : String → String → Locks F → F
  get_locked_amount rid exclude locks = p.sum (held rid exclude locks)

  -- the test of one resource in step 1, `resources[rid]` being there
  unfoldable pub short : (String → F) → String → Dict F → Locks F → String → Bool
  short available dfid resources locks rid =
      p.lt (p.sub (available rid) (get_locked_amount rid dfid locks)) (amount rid resources)

  -- step 1 over the sorted resources: is none short
  unfoldable pub all_available : (String → F) → String → Dict F → Locks F → List String → Bool
  all_available available dfid resources locks [] = true
  all_available available dfid resources locks (rid ∷ rids) =
      if short available dfid resources locks rid
      then false
      else all_available available dfid resources locks rids

  -- the `while` of `acquire`
  unfoldable pub acquire_rounds :
      (String → F) → String → Dict F → List String → List Bool → Locks F → Locks F × LockResult
  acquire_rounds available dfid resources rids [] locks = (locks, resource_contention_timeout)
  acquire_rounds available dfid resources rids (granted ∷ rounds) locks =
      let next = acquire_rounds available dfid resources rids rounds locks in
      if all_available available dfid resources locks rids
      then (if granted then (acquire_batch dfid resources locks, acquired) else next)
      else (locks, insufficient_liquidity)

  unfoldable pub acquire :
      (String → F) → String → Dict F → List Bool → Locks F → Locks F × LockResult
  acquire available dfid resources rounds locks =
      acquire_rounds available dfid resources (sort_texts (Dict.keys resources)) rounds locks
