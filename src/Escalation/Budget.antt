-- ===== src/Escalation/Budget.antt =====
-- The escalation budget: no window ever holds more tokens of an agent than its capacity.
use decision_intelligence_ru.Prelude.{
  All, Bool-cases, List, Option, Option-cases, String, [], arith, eq_iff, false, if◌then◌else◌, inl,
  inr, int_laws, leb, leb_ℤ, negsuc, pos, subst, suc, ℕ, ℤ, ◌&&◌, ◌++◌, ◌+◌, ◌-ℤ◌, ◌==◌, ◌∷◌, ◌≡◌,
  ◌≤ℤ◌, ◌≤◌,
}
use decision_intelligence_ru.Python.{Fields}
use decision_intelligence_ru.Dict
use decision_intelligence_ru.Escalation.{
  EscalationManager, HumanDecision, ImpactCategory, Token, count_since, get_window_count,
  insert_request, record_budget_token, request_escalation, resolve_escalation, whole_seconds,
}

-- the tokens of an agent that were created from `since` to `until`
unfoldable pub count_within : String → ℤ → ℤ → List Token → ℕ
count_within agent_id since until [] = 0
count_within agent_id since until (e ∷ budget) =
    let rest = count_within agent_id since until budget in
    if e.agent_id == agent_id && (leb_ℤ since e.created_at && leb_ℤ e.created_at until)
    then suc rest
    else rest

whole_seconds-le : (a b : ℤ) → a ≤ℤ b → whole_seconds a ≤ℤ whole_seconds b
unfolding whole_seconds
whole_seconds-le (pos a) (pos b) h = omega arith
whole_seconds-le (pos a) (negsuc b) h = omega arith
whole_seconds-le (negsuc a) (pos b) h = omega arith
whole_seconds-le (negsuc a) (negsuc b) h = omega arith

-- a window that starts earlier and has no end counts at least as many
count_within-le :
    (agent_id : String) (early since until : ℤ) (budget : List Token)
    → early ≤ℤ since
    → count_within agent_id since until budget ≤ count_since agent_id early budget
unfolding count_within count_since
count_within-le agent_id early since until [] h = omega arith
count_within-le agent_id early since until (e ∷ budget) h =
    ground (arith, count_within-le agent_id early since until budget h)

count_within-snoc :
    (agent_id : String) (since until : ℤ) (e : Token) (budget : List Token)
    → count_within agent_id since until (budget ++ e ∷ [])
      ≡ count_within agent_id since until budget
        + (if e.agent_id == agent_id && (leb_ℤ since e.created_at && leb_ℤ e.created_at until)
            then 1
            else 0)
unfolding count_within
count_within-snoc agent_id since until e [] = ground arith
count_within-snoc agent_id since until e (d ∷ budget) =
    ground (arith, count_within-snoc agent_id since until e budget)

-ℤ-le : (a b i : ℤ) → a ≤ℤ b → a -ℤ i ≤ℤ b -ℤ i
-ℤ-le a b i h = omega int_laws

-- A token that a request may write leaves every window within the capacity.
token-fits :
    (a agent_id : String) (interval now later until : ℤ) (cap : ℕ) (budget : List Token)
    → now ≤ℤ later
    → leb cap (count_since agent_id (whole_seconds (now -ℤ interval)) budget) ≡ false
    → count_within a (whole_seconds (until -ℤ interval)) until budget ≤ cap
    → count_within a
        (whole_seconds (until -ℤ interval))
        until
        (budget ++ record { agent_id = agent_id; created_at = later } ∷ [])
      ≤ cap
token-fits a agent_id interval now later until cap budget c e h =
    rw
      (count_within-snoc a (whole_seconds (until -ℤ interval)) until
        (record { agent_id = agent_id; created_at = later }) budget)
      (elim (Bool-cases (agent_id == a)) [
        | inr f ↦ rw f (omega (arith, h))
        | inl f ↦ elim (Bool-cases (leb_ℤ later until)) [
          | inr g ↦ ground (arith, h, f, g)
          | inl g ↦
              let low =
                count_within-le agent_id (whole_seconds (now -ℤ interval))
                  (whole_seconds (until -ℤ interval)) until budget
                  (whole_seconds-le (now -ℤ interval) (until -ℤ interval)
                    (-ℤ-le now until interval (ground (arith, c, g)))) in
              let same =
                subst
                  (λ b.
                    count_within b (whole_seconds (until -ℤ interval)) until budget
                    ≤ count_since agent_id (whole_seconds (now -ℤ interval)) budget)
                  ((eq_iff agent_id a).0 f) low in
              ground (arith, same, e, h)
        ]
      ])

-- A call of the manager, with the clocks that it reads.
pub data Call (F : Type 0) : Type 0 where
  request : String → String → String → Fields F → Fields F → ImpactCategory → ℤ → ℤ → Call F
  resolve : String → HumanDecision → Option (Fields F) → ℤ → Call F

module _ {F : Type 0} where
  unfoldable pub call : EscalationManager F → Call F → EscalationManager F
  call m (request dfid agent_id reason context proposal impact now later) =
      (request_escalation m dfid agent_id reason context proposal impact now later).0
  call m (resolve dfid decision modified now) = resolve_escalation m dfid decision modified now

  unfoldable pub calls : EscalationManager F → List (Call F) → EscalationManager F
  calls m [] = m
  calls m (c ∷ cs) = calls (call m c) cs

  -- The clock of a request does not go back before the request's token is written.
  abbrev pub ClockHolds : Call F → Type 0
  ClockHolds (request _ _ _ _ _ _ now later) = now ≤ℤ later
  ClockHolds (resolve _ _ _ _) = Unit

  -- the tokens of an agent in the window that ends at `until`
  abbrev pub window : EscalationManager F → String → ℤ → ℕ
  window m agent_id until =
      count_within agent_id (whole_seconds (until -ℤ m.refill_interval)) until m.budget

  -- No window of any agent holds more tokens than the capacity.
  abbrev pub IsBudgeted : EscalationManager F → Type 0
  IsBudgeted m =
      (agent_id : String) (until : ℤ) → window m agent_id until ≤ m.max_escalations_per_hour

  request-IsBudgeted :
      (m : EscalationManager F) (dfid agent_id reason : String) (context proposal : Fields F)
      (impact : ImpactCategory) (now later : ℤ)
      → now ≤ℤ later
      → IsBudgeted m
      → IsBudgeted (request_escalation m dfid agent_id reason context proposal impact now later).0
  unfolding request_escalation get_window_count record_budget_token insert_request
  request-IsBudgeted m dfid agent_id reason context proposal impact now later c b =
      elim (Bool-cases (
        leb m.max_escalations_per_hour
          (count_since agent_id (whole_seconds (now -ℤ m.refill_interval)) m.budget))) [
            | inl e ↦ rw e b
            | inr e ↦ rw e (λ a until.
                token-fits a agent_id m.refill_interval now later until m.max_escalations_per_hour
                  m.budget c e (b a until))
          ]

  resolve-IsBudgeted :
      (m : EscalationManager F) (dfid : String) (decision : HumanDecision)
      (modified : Option (Fields F)) (now : ℤ)
      → IsBudgeted m
      → IsBudgeted (resolve_escalation m dfid decision modified now)
  unfolding resolve_escalation
  resolve-IsBudgeted m dfid decision modified now b a until =
      elim (Option-cases (Dict.get dfid m.requests)) [
        | inl e ↦ rw (e, resolve_escalation) (b a until)
        | inr (req, e) ↦ rw (e, resolve_escalation) (b a until)
      ]

  -- Where no request's token is written before the time that the request read, no sequence of
  -- requests and resolutions, granted or not, ever brings a window of any agent above the capacity:
  -- at every time the tokens that the window ending there holds are at most
  -- `max_escalations_per_hour`, if the manager starts within it.
  pub calls-IsBudgeted :
      (m : EscalationManager F) (cs : List (Call F))
      → All ClockHolds cs
      → IsBudgeted m
      → IsBudgeted (calls m cs)
  unfolding calls call
  calls-IsBudgeted m [] c b = b
  calls-IsBudgeted m (request dfid agent_id reason context proposal impact now later ∷ cs) c b =
      calls-IsBudgeted
        (request_escalation m dfid agent_id reason context proposal impact now later).0 cs c.1
        (request-IsBudgeted m dfid agent_id reason context proposal impact now later c.0 b)
  calls-IsBudgeted m (resolve dfid decision modified now ∷ cs) c b =
      calls-IsBudgeted (resolve_escalation m dfid decision modified now) cs c.1
        (resolve-IsBudgeted m dfid decision modified now b)
