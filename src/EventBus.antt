-- ===== src/EventBus.antt =====
-- src/dir_core/event_bus.py: the in-memory event bus. A callback is a number, its identity, which `!=`
-- compares; `handles` says whether the function returns on a payload or raises. What a callback does
-- to the bus while it runs is not modelled. The type of an event or a subscription is the text that
-- `type_key` gives, the same for an `EventType` and its value.
pub mod Flat
pub mod Logging
use decision_intelligence_ru.Prelude.{
  Bool, List, Option, String, [], eqb, false, if◌then◌else◌, keep, length, map, none, not, or_else,
  some, suc, true, ℕ, ◌&&◌, ◌++◌, ◌+◌, ◌==◌, ◌||◌, ◌∷◌,
}
use decision_intelligence_ru.Dict
use decision_intelligence_ru.Dict.{Dict}
use decision_intelligence_ru.Python.{Fields}

pub record Subscription : Type 0 where
  pub callback : ℕ
  pub scope : Option String

pub record Event (F : Type 0) : Type 0 where
  pub type_key : String
  pub payload : Fields F
  pub target_scope : Option String

pub record EventBus : Type 0 where
  pub listeners : Dict (List Subscription)
  pub event_count : ℕ

abbrev pub new_bus : EventBus
new_bus = record { listeners = []; event_count = 0 }

-- What a dispatch answers: the number of listeners notified, and (for the theorems) the callbacks in
-- the order called.
pub record Delivery : Type 0 where
  pub notified : ℕ
  pub called : List ℕ

-- `self._listeners.get(key, [])`
unfoldable pub listeners_of : String → Dict (List Subscription) → List Subscription
listeners_of key listeners = or_else (Dict.get key listeners) []

unfoldable pub subscribe : EventBus → String → ℕ → Option String → EventBus
subscribe bus key callback scope = record bus {
  listeners =
      Dict.set key
        (listeners_of key bus.listeners ++ record { callback = callback; scope = scope } ∷ [])
        bus.listeners;
}

-- `s.callback != callback`
unfoldable pub is_other : ℕ → Subscription → Bool
is_other callback s = not (eqb s.callback callback)

-- the list written back, or the key deleted where it is empty
unfoldable pub put_back :
    String → List Subscription → Dict (List Subscription) → Dict (List Subscription)
put_back key [] listeners = Dict.pop key listeners
put_back key (s ∷ subs) listeners = Dict.set key (s ∷ subs) listeners

unfoldable pub unsubscribe : EventBus → String → ℕ → EventBus
unsubscribe bus key callback = elim (Dict.get key bus.listeners) [
  | none ↦ bus
  | some subs ↦ record bus {
    listeners = put_back key (keep (is_other callback) subs) bus.listeners;
  }
]

-- `target_scope and sub.scope == target_scope`
unfoldable pub scope_is : Option String → String → Bool
scope_is none scope = false
scope_is (some target) scope = not (target == "") && scope == target

-- the test of the filter by scope
unfoldable pub in_scope : Option String → Subscription → Bool
in_scope target_scope sub = elim sub.scope [
  | none ↦ true
  | some scope ↦ scope == "*" || scope_is target_scope scope
]

unfoldable pub matching : Option String → List Subscription → List Subscription
matching target_scope = keep (in_scope target_scope)

module _ {F : Type 0} where
  -- the loop over the matching subscriptions: those that returned are counted
  unfoldable pub notify : (ℕ → Fields F → Bool) → Fields F → List Subscription → ℕ
  notify handles payload [] = 0
  notify handles payload (sub ∷ subs) =
      let rest = notify handles payload subs in
      if handles sub.callback payload then suc rest else rest

  unfoldable pub dispatch : (ℕ → Fields F → Bool) → EventBus → Event F → EventBus × Delivery
  dispatch handles bus event =
      let subs = matching event.target_scope (listeners_of event.type_key bus.listeners) in
      (
        record bus { event_count = bus.event_count + 1 },
        record {
          notified = notify handles event.payload subs;
          called = map (λ sub. sub.callback) subs;
        },
      )

  unfoldable pub publish :
      (ℕ → Fields F → Bool) → EventBus → String → Fields F → Option String → EventBus × Delivery
  publish handles bus key payload target_scope =
      dispatch handles bus
        (record { type_key = key; payload = payload; target_scope = target_scope })

unfoldable pub count_all : Dict (List Subscription) → ℕ
count_all [] = 0
count_all ((key, subs) ∷ listeners) = length subs + count_all listeners

unfoldable pub subscription_count : EventBus → ℕ
subscription_count bus = count_all bus.listeners
