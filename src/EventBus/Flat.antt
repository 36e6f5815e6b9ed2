-- ===== src/EventBus/Flat.antt =====
-- What the event bus promises, without its table: a list of subscriptions in the order made.
use decision_intelligence_ru.Python.{Fields}
use decision_intelligence_ru.Prelude.{
  Bool, List, Option, Option-cases, String, [], arith, eq_iff, eqb, if◌then◌else◌, inl, inr, keep,
  map, none, not, or_else, refl, some, true, ℕ, ◌&&◌, ◌++◌, ◌==◌, ◌||◌, ◌∷◌, ◌≡◌,
}
use decision_intelligence_ru.Dict
use decision_intelligence_ru.Dict.{Dict}
use decision_intelligence_ru.Dict.Laws.{get-pop, get-set}
use decision_intelligence_ru.EventBus.{
  Event, EventBus, Subscription, dispatch, in_scope, is_other, listeners_of, matching, new_bus,
  notify, put_back, scope_is, subscribe, unsubscribe,
}

-- A subscription with its event type.
abbrev pub Flat : Type 0
Flat = List (String × Subscription)

-- the subscriptions to one type, in order
unfoldable pub subs_of : String → Flat → List Subscription
subs_of key [] = []
subs_of key ((k, s) ∷ flat) = if k == key then s ∷ subs_of key flat else subs_of key flat

-- a flat list without the subscriptions of a callback to a type
unfoldable pub cancel : String → ℕ → Flat → Flat
cancel key callback [] = []
cancel key callback ((k, s) ∷ flat) =
    if k == key && eqb s.callback callback
    then cancel key callback flat
    else (k, s) ∷ cancel key callback flat

pub data Call : Type 0 where
  add : String → ℕ → Option String → Call
  remove : String → ℕ → Call

unfoldable pub call : EventBus → Call → EventBus
call bus (add key callback scope) = subscribe bus key callback scope
call bus (remove key callback) = unsubscribe bus key callback

unfoldable pub calls : EventBus → List Call → EventBus
calls bus [] = bus
calls bus (c ∷ cs) = calls (call bus c) cs

unfoldable pub flat_call : Flat → Call → Flat
flat_call flat (add key callback scope) =
    flat ++ (key, record { callback = callback; scope = scope }) ∷ []
flat_call flat (remove key callback) = cancel key callback flat

unfoldable pub flat_calls : Flat → List Call → Flat
flat_calls flat [] = flat
flat_calls flat (c ∷ cs) = flat_calls (flat_call flat c) cs

-- the bus and the flat list hold the same subscriptions for every type, in the same order
abbrev pub Agree : EventBus → Flat → Type 0
Agree bus flat = (key : String) → listeners_of key bus.listeners ≡ subs_of key flat

subs-snoc :
    (key k : String) (s : Subscription) (flat : Flat)
    → subs_of key (flat ++ (k, s) ∷ [])
      ≡ (if k == key then subs_of key flat ++ s ∷ [] else subs_of key flat)
unfolding subs_of
subs-snoc key k s [] = ground arith
subs-snoc key k s ((j, t) ∷ flat) = ground (arith, subs-snoc key k s flat)

subs-cancel :
    (key k : String) (callback : ℕ) (flat : Flat)
    → subs_of key (cancel k callback flat)
      ≡ (if k == key then keep (is_other callback) (subs_of key flat) else subs_of key flat)
unfolding subs_of cancel keep is_other
subs-cancel key k callback [] = ground arith
subs-cancel key k callback ((j, t) ∷ flat) =
    ground (arith, subs-cancel key k callback flat, eq_iff j k, eq_iff k key, eq_iff j key)

listeners-put_back :
    (key k : String) (subs : List Subscription) (listeners : Dict (List Subscription))
    → listeners_of key (put_back k subs listeners)
      ≡ (if k == key then subs else listeners_of key listeners)
unfolding listeners_of put_back
listeners-put_back key k [] listeners = ground (arith, get-pop k key listeners)
listeners-put_back key k (s ∷ subs) listeners = ground (arith, get-set k key (s ∷ subs) listeners)

listeners_none :
    (k : String) (listeners : Dict (List Subscription))
    → Dict.get k listeners ≡ none
    → listeners_of k listeners ≡ []
unfolding listeners_of
listeners_none k listeners e = rw e refl

listeners_some :
    (k : String) (subs : List Subscription) (listeners : Dict (List Subscription))
    → Dict.get k listeners ≡ some subs
    → listeners_of k listeners ≡ subs
unfolding listeners_of
listeners_some k subs listeners e = rw e refl

subscribe-Agree :
    (bus : EventBus) (flat : Flat) (k : String) (callback : ℕ) (scope : Option String)
    → Agree bus flat
    → Agree (call bus (add k callback scope)) (flat_call flat (add k callback scope))
unfolding call flat_call subscribe listeners_of
subscribe-Agree bus flat k callback scope a key =
    rw (subs-snoc key k (record { callback = callback; scope = scope }) flat) (
      ground (
        arith,
        get-set k key
            (or_else (Dict.get k bus.listeners) []
              ++ record { callback = callback; scope = scope } ∷ [])
            bus.listeners,
        a k,
        a key,
        eq_iff k key,
      ))

unsubscribe-Agree :
    (bus : EventBus) (flat : Flat) (k : String) (callback : ℕ)
    → Agree bus flat
    → Agree (call bus (remove k callback)) (flat_call flat (remove k callback))
unfolding call flat_call unsubscribe keep
unsubscribe-Agree bus flat k callback a key = elim (Option-cases (Dict.get k bus.listeners)) [
  | inl e ↦
      rw (e, call, unsubscribe, subs-cancel key k callback flat)
        (ground (arith, listeners_none k bus.listeners e, a k, a key, eq_iff k key))
  | inr (subs, e) ↦
      rw
        (
          e,
          call,
          unsubscribe,
          subs-cancel key k callback flat,
          listeners-put_back key k (keep (is_other callback) subs) bus.listeners,
        )
        (ground (arith, listeners_some k subs bus.listeners e, a k, a key, eq_iff k key))
]

calls-Agree :
    (cs : List Call) (bus : EventBus) (flat : Flat)
    → Agree bus flat
    → Agree (calls bus cs) (flat_calls flat cs)
unfolding calls flat_calls
calls-Agree [] bus flat a = a
calls-Agree (add k callback scope ∷ cs) bus flat a =
    calls-Agree cs (call bus (add k callback scope)) (flat_call flat (add k callback scope))
      (subscribe-Agree bus flat k callback scope a)
calls-Agree (remove k callback ∷ cs) bus flat a =
    calls-Agree cs (call bus (remove k callback)) (flat_call flat (remove k callback))
      (unsubscribe-Agree bus flat k callback a)

new_bus-Agree : Agree new_bus []
unfolding listeners_of Dict.get subs_of
new_bus-Agree key = refl

-- Does an event with this target reach a subscription with this scope: one with no scope, with the
-- scope "*", or with the target itself, where the event has one that is not empty.
unfoldable pub reaches : Option String → Option String → Bool
reaches target none = true
reaches none (some scope) = scope == "*"
reaches (some target) (some scope) = scope == "*" || (target == scope && not (scope == ""))

-- the subscriptions of a flat list that an event reaches, in the order made
unfoldable pub reached : {F : Type 0} → Event F → Flat → List Subscription
reached event flat =
    keep (λ sub. reaches event.target_scope sub.scope) (subs_of event.type_key flat)

scope-reaches :
    (target : Option String) (sub : Subscription) → in_scope target sub ≡ reaches target sub.scope
unfolding in_scope reaches scope_is
scope-reaches none sub = elim (Option-cases sub.scope) [
  | inl e ↦ rw e refl
  | inr (scope, e) ↦ rw e (ground arith)
]
scope-reaches (some target) sub = elim (Option-cases sub.scope) [
  | inl e ↦ rw e refl
  | inr (scope, e) ↦
      rw e (
        ground (arith, eq_iff scope target, eq_iff target scope, eq_iff target "", eq_iff scope ""))
]

matching-reaches :
    (target : Option String) (subs : List Subscription)
    → matching target subs ≡ keep (λ sub. reaches target sub.scope) subs
unfolding matching keep
matching-reaches target [] = refl
matching-reaches target (sub ∷ subs) =
    ground (arith, scope-reaches target sub, matching-reaches target subs)

-- After any sequence of subscriptions and cancellations on a new bus, an event calls exactly the
-- callbacks of those subscriptions that are made to its type, not cancelled since and in its scope,
-- in the order made, and the answer counts those of them that do not raise.
pub dispatch-calls :
    {F : Type 0}
    → (handles : ℕ → Fields F → Bool) (cs : List Call) (event : Event F)
    → (dispatch handles (calls new_bus cs) event).1 ≡ record {
      notified = notify handles event.payload (reached event (flat_calls [] cs));
      called = map (λ sub. sub.callback) (reached event (flat_calls [] cs));
    }
unfolding dispatch reached
dispatch-calls handles cs event =
    rw (calls-Agree cs new_bus [] new_bus-Agree event.type_key, matching-reaches) refl
