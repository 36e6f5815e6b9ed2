-- ===== src/Governor/Counting.antt =====
-- The rejection budget of a decision flow: what a sequence of calls leaves of it.
use decision_intelligence_ru.Prelude.{
  List, String, [], ap, arith, eq_iff, if◌then◌else◌, leb, or_else, refl, ℕ, ◌+◌, ◌==◌, ◌∙◌, ◌∷◌,
  ◌≡◌,
}
use decision_intelligence_ru.Dict
use decision_intelligence_ru.Dict.Laws.{get-pop, get-set}
use decision_intelligence_ru.Governor.{
  IntentRetryGovernor, delete, get_count, new_governor, record_rejection, reset, set_count,
  should_abort,
}

pub count-record_rejection :
    (g : IntentRetryGovernor) (d e : String)
    → get_count (record_rejection g d).0.storage e
      ≡ (if d == e then get_count g.storage e + 1 else get_count g.storage e)
unfolding record_rejection get_count set_count
count-record_rejection g d e =
    ground (
      arith,
      get-set d e (or_else (Dict.get d g.storage.counts) 0 + 1) g.storage.counts,
      eq_iff d e,
    )

pub count-reset :
    (g : IntentRetryGovernor) (d e : String)
    → get_count (reset g d).storage e ≡ (if d == e then 0 else get_count g.storage e)
unfolding reset get_count delete
count-reset g d e = ground (arith, get-pop d e g.storage.counts)

pub max-record_rejection :
    (g : IntentRetryGovernor) (d : String) → (record_rejection g d).0.max_retries ≡ g.max_retries
unfolding record_rejection
max-record_rejection g d = refl

-- A call that a flow makes of the governor.
pub data Call : Type 0 where
  reject : String → Call
  end_flow : String → Call

unfoldable pub call : IntentRetryGovernor → Call → IntentRetryGovernor
call g (reject d) = (record_rejection g d).0
call g (end_flow d) = reset g d

unfoldable pub calls : IntentRetryGovernor → List Call → IntentRetryGovernor
calls g [] = g
calls g (c ∷ cs) = calls (call g c) cs

-- The rejections of a flow since its last end, counted from `n` before the calls.
unfoldable pub rejections : String → ℕ → List Call → ℕ
rejections d n [] = n
rejections d n (reject e ∷ cs) = rejections d (if e == d then n + 1 else n) cs
rejections d n (end_flow e ∷ cs) = rejections d (if e == d then 0 else n) cs

count-calls :
    (g : IntentRetryGovernor) (d : String) (cs : List Call)
    → get_count (calls g cs).storage d ≡ rejections d (get_count g.storage d) cs
unfolding calls rejections call
count-calls g d [] = refl
count-calls g d (reject e ∷ cs) =
    count-calls (record_rejection g e).0 d cs
    ∙ ap (λ n. rejections d n cs) (count-record_rejection g e d)
count-calls g d (end_flow e ∷ cs) =
    count-calls (reset g e) d cs ∙ ap (λ n. rejections d n cs) (count-reset g e d)

max-calls : (g : IntentRetryGovernor) (cs : List Call) → (calls g cs).max_retries ≡ g.max_retries
unfolding calls call
max-calls g [] = refl
max-calls g (reject e ∷ cs) = max-calls (record_rejection g e).0 cs ∙ max-record_rejection g e
max-calls g (end_flow e ∷ cs) = max-calls (reset g e) cs ∙ (unfold reset in refl)

-- After any sequence of rejections and resets of any flows, the governor asks to abort a flow
-- exactly when the flow's own rejections since its last reset number at least `max_retries`.
pub should_abort-calls :
    (m : ℕ) (d : String) (cs : List Call)
    → should_abort (calls (new_governor m) cs) d ≡ leb m (rejections d 0 cs)
unfolding should_abort
should_abort-calls m d cs =
    rw (max-calls, count-calls) (unfold new_governor get_count Dict.get in refl)
