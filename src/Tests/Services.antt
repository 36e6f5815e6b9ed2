-- ===== src/Tests/Services.antt =====
-- The theorems on the services around the kernel (JIT, wake-up, event bus) at concrete data.
use decision_intelligence_ru.Prelude.{
  All, Bool, List, [], eqb, map, none, not, or_else, pos, refl, some, ℕ, ◌↔◌, ◌∷◌, ◌≡◌,
}
use decision_intelligence_ru.Dict.{Dict}
use decision_intelligence_ru.Python.{Fields, end, field, num, raise, str, type_error}
use decision_intelligence_ru.Python.Sample.{Sample, cents, sample}
use decision_intelligence_ru.Models.{accept}
use decision_intelligence_ru.Jit
use decision_intelligence_ru.Jit.Steady.{verify-accept_iff}
use decision_intelligence_ru.Wakeup.{
  WakeupPredicate, price_change_significant, should_wake, volatility_elevated,
}
use decision_intelligence_ru.EventBus.{Event, dispatch, new_bus, notify}
use decision_intelligence_ru.EventBus.Flat
use decision_intelligence_ru.EventBus.Logging
use decision_intelligence_ru.EventBus.Flat.{Flat, dispatch-calls}
use decision_intelligence_ru.EventBus.Logging.{log_run-plain_run}

-- a price of 100.00, and one that drifted by 0.50
abbrev price : ℕ → Fields Sample
price n = field "price" (num (cents (pos n))) end

abbrev tolerance : Dict Sample
tolerance = ("price", cents (pos 100)) ∷ []

verify-accept_iff_example :
    (Jit.verify (price 10000) (price 10050) none (some tolerance) ≡ (accept, "no state drift"))
    ↔ All
        (Jit.Steady.KeyIsSteady (or_else (some tolerance) []) (price 10000) (price 10050))
        (Jit.compared_keys none (price 10000))
verify-accept_iff_example = verify-accept_iff (price 10000) (price 10050) none (some tolerance)

within_example :
    Jit.verify (price 10000) (price 10050) none (some tolerance) ≡ (accept, "no state drift")
unfolding Jit.verify Jit.verify_drift Jit.first_drift Jit.compared_keys Jit.key_drift
    decision_intelligence_ru.Dict.get Jit.near Jit.number_or_zero
    decision_intelligence_ru.Python.get_field decision_intelligence_ru.Python.to_float
within_example = refl

-- two predicates, of which the second raises on a text
abbrev volatile : WakeupPredicate Sample
volatile = record { name = "volatile"; condition = volatility_elevated (cents (pos 10)) }

abbrev moved : WakeupPredicate Sample
moved = record { name = "moved"; condition = price_change_significant (cents (pos 100)) }

abbrev payload : Fields Sample
payload = field "volatility" (num (cents (pos 50))) (field "price_delta_pct" (str "high") end)

wake_example : should_wake payload (volatile ∷ moved ∷ []) ≡ raise type_error
unfolding should_wake decision_intelligence_ru.Wakeup.evaluate volatility_elevated
    decision_intelligence_ru.Wakeup.as_number decision_intelligence_ru.Wakeup.get_or_zero
    decision_intelligence_ru.Python.find_field price_change_significant
wake_example = refl

-- the callback 2 raises, the others return
abbrev handles : ℕ → Fields Sample → Bool
handles callback fs = not (eqb callback 2)

abbrev subscriptions : List Flat.Call
subscriptions =
    Flat.add "TICK" 1 none
    ∷ Flat.add "TICK" 2 (some "BTC-USD")
    ∷ Flat.add "TICK" 3 (some "ETH-USD")
    ∷ Flat.remove "TICK" 1
    ∷ Flat.add "TICK" 4 (some "*")
    ∷ []

abbrev tick : Event Sample
tick = record { type_key = "TICK"; payload = payload; target_scope = some "BTC-USD" }

dispatch-calls_example : (dispatch handles (Flat.calls new_bus subscriptions) tick).1 ≡ record {
  notified = notify handles tick.payload (Flat.reached tick (Flat.flat_calls [] subscriptions));
  called = map (λ sub. sub.callback) (Flat.reached tick (Flat.flat_calls [] subscriptions));
}
dispatch-calls_example = dispatch-calls handles subscriptions tick

called_example :
    (dispatch handles (Flat.calls new_bus subscriptions) tick).1
    ≡ record { notified = 1; called = 2 ∷ 4 ∷ [] }
unfolding dispatch notify decision_intelligence_ru.EventBus.matching
    decision_intelligence_ru.Prelude.keep decision_intelligence_ru.EventBus.listeners_of
    decision_intelligence_ru.Dict.get Flat.calls Flat.call
    decision_intelligence_ru.EventBus.subscribe decision_intelligence_ru.Dict.set
    decision_intelligence_ru.EventBus.unsubscribe decision_intelligence_ru.EventBus.put_back
    decision_intelligence_ru.EventBus.is_other decision_intelligence_ru.EventBus.in_scope
    decision_intelligence_ru.EventBus.scope_is
called_example = refl

abbrev bus_uses : List (Logging.Use Sample)
bus_uses =
    Logging.change (Flat.add "TICK" 1 none)
    ∷ Logging.send tick
    ∷ Logging.change (Flat.remove "TICK" 1)
    ∷ Logging.send tick
    ∷ []

log_run-plain_run_example : Logging.log_run handles (Logging.wrap new_bus) bus_uses ≡ (
  record {
    wrapped = (Logging.plain_run handles new_bus bus_uses).0;
    event_log = Logging.sent bus_uses;
  },
  (Logging.plain_run handles new_bus bus_uses).1,
)
log_run-plain_run_example = log_run-plain_run handles new_bus bus_uses
