-- ===== src/EventBus/Logging.antt =====
-- src/dir_core/event_bus.py: `LoggingEventBus`, which keeps the events that it passes on, and the
-- factory `create_event_bus`. The backend is the text after the environment's default, `strip` and `lower`.
use decision_intelligence_ru.Prelude.{Bool, List, Option, String, [], refl, ℕ, ◌++◌, ◌∷◌, ◌≡◌}
use mathlib.Core.List.{append-nil, append_assoc}
use decision_intelligence_ru.EventBus.{Delivery, Event, EventBus, dispatch, subscribe, unsubscribe}
use decision_intelligence_ru.EventBus.Flat.{Call, add, call, remove}
use decision_intelligence_ru.Python.{Fields}

pub record LoggingEventBus (F : Type 0) : Type 0 where
  pub wrapped : EventBus
  pub event_log : List (Event F)

-- A use of a bus.
pub data Use (F : Type 0) : Type 0 where
  change : Call → Use F
  send : Event F → Use F

module _ {F : Type 0} where
  abbrev pub wrap : EventBus → LoggingEventBus F
  wrap bus = record { wrapped = bus; event_log = [] }

  unfoldable pub log_subscribe : LoggingEventBus F → String → ℕ → Option String → LoggingEventBus F
  log_subscribe bus key callback scope = record bus {
    wrapped = subscribe bus.wrapped key callback scope;
  }

  unfoldable pub log_unsubscribe : LoggingEventBus F → String → ℕ → LoggingEventBus F
  log_unsubscribe bus key callback = record bus { wrapped = unsubscribe bus.wrapped key callback }

  unfoldable pub log_dispatch :
      (ℕ → Fields F → Bool) → LoggingEventBus F → Event F → LoggingEventBus F × Delivery
  log_dispatch handles bus event =
      let (wrapped, answer) = dispatch handles bus.wrapped event in
      (record { wrapped = wrapped; event_log = bus.event_log ++ event ∷ [] }, answer)

  unfoldable pub log_publish :
      (ℕ → Fields F → Bool)
      → LoggingEventBus F
      → String
      → Fields F
      → Option String
      → LoggingEventBus F × Delivery
  log_publish handles bus key payload target_scope =
      log_dispatch handles bus
        (record { type_key = key; payload = payload; target_scope = target_scope })

  unfoldable pub get_event_log : LoggingEventBus F → List (Event F)
  get_event_log bus = bus.event_log

  -- the bus after a sequence of uses, and the answer to each event
  unfoldable pub plain_run :
      (ℕ → Fields F → Bool) → EventBus → List (Use F) → EventBus × List Delivery
  plain_run handles bus [] = (bus, [])
  plain_run handles bus (change c ∷ us) = plain_run handles (call bus c) us
  plain_run handles bus (send event ∷ us) =
      let (bus', answer) = dispatch handles bus event in
      let (bus'', answers) = plain_run handles bus' us in (bus'', answer ∷ answers)

  unfoldable pub log_call : LoggingEventBus F → Call → LoggingEventBus F
  log_call bus (add key callback scope) = log_subscribe bus key callback scope
  log_call bus (remove key callback) = log_unsubscribe bus key callback

  unfoldable pub log_run :
      (ℕ → Fields F → Bool) → LoggingEventBus F → List (Use F) → LoggingEventBus F × List Delivery
  log_run handles bus [] = (bus, [])
  log_run handles bus (change c ∷ us) = log_run handles (log_call bus c) us
  log_run handles bus (send event ∷ us) =
      let (bus', answer) = log_dispatch handles bus event in
      let (bus'', answers) = log_run handles bus' us in (bus'', answer ∷ answers)

  unfoldable pub sent : List (Use F) → List (Event F)
  sent [] = []
  sent (change c ∷ us) = sent us
  sent (send event ∷ us) = event ∷ sent us

  run_wrapped :
      (handles : ℕ → Fields F → Bool) (us : List (Use F)) (bus : EventBus) (log : List (Event F))
      → log_run handles (record { wrapped = bus; event_log = log }) us ≡ (
        record { wrapped = (plain_run handles bus us).0; event_log = log ++ sent us },
        (plain_run handles bus us).1,
      )
  unfolding log_run plain_run sent log_call call log_subscribe log_unsubscribe log_dispatch
  run_wrapped handles [] bus log = rw (append-nil log) refl
  run_wrapped handles (change (add k c s) ∷ us) bus log =
      run_wrapped handles us (subscribe bus k c s) log
  run_wrapped handles (change (remove k c) ∷ us) bus log =
      run_wrapped handles us (unsubscribe bus k c) log
  run_wrapped handles (send event ∷ us) bus log =
      rw (run_wrapped handles us (dispatch handles bus event).0 (log ++ event ∷ []))
        (rw (append_assoc log (event ∷ []) (sent us)) refl)

  -- A logging bus answers every use like the bus that it wraps, which it leaves in the same state,
  -- and its log is the events sent, those with no listener too, in the order sent.
  pub log_run-plain_run :
      (handles : ℕ → Fields F → Bool) (bus : EventBus) (us : List (Use F))
      → log_run handles (wrap bus) us ≡ (
        record { wrapped = (plain_run handles bus us).0; event_log = sent us },
        (plain_run handles bus us).1,
      )
  log_run-plain_run handles bus us = run_wrapped handles us bus []
