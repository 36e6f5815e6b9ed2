-- ===== src/Dict.antt =====
-- Python's `dict` with string keys, as a list of items in insertion order: an assignment to a key
-- that is there keeps its place, a new key goes last, `pop` drops it. Used by every in-memory
-- backend of src/dir_core/storage/memory.py.
pub mod Laws
use decision_intelligence_ru.Prelude.{
  List, Option, String, [], if◌then◌else◌, none, some, ◌==◌, ◌∷◌,
}

abbrev pub Dict {ℓ} : Type ℓ → Type ℓ
Dict V = List (String × V)

module _ {ℓ} {V : Type ℓ} where
  -- `d.get(k)`
  unfoldable pub get : String → Dict V → Option V
  get k [] = none
  get k ((j, v) ∷ d) = if j == k then some v else get k d

  -- `d[k] = v`
  unfoldable pub set : String → V → Dict V → Dict V
  set k v [] = (k, v) ∷ []
  set k v ((j, w) ∷ d) = if j == k then (j, v) ∷ d else (j, w) ∷ set k v d

  -- `d.pop(k, None)`
  unfoldable pub pop : String → Dict V → Dict V
  pop k [] = []
  pop k ((j, v) ∷ d) = if j == k then pop k d else (j, v) ∷ pop k d

  -- `d.keys()`
  unfoldable pub keys : Dict V → List String
  keys [] = []
  keys ((j, v) ∷ d) = j ∷ keys d

  -- `d.values()`
  unfoldable pub values : Dict V → List V
  values [] = []
  values ((j, v) ∷ d) = v ∷ values d
