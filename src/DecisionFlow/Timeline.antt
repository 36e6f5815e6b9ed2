-- ===== src/DecisionFlow/Timeline.antt =====
-- What the timeline and the list of agents of a decision flow keep, whatever is recorded.
use mathlib.Core.List.{append-nil, append_assoc}
use decision_intelligence_ru.Prelude.{
  All, All-append, Bool-cases, List, Option, String, [], ap, arith, eq_iff, eq_refl, false, inl,
  inr, length, mem, mem-snoc, none, refl, some, suc, sym, true, ℕ, ℤ, ◌++◌, ◌==◌, ◌||◌, ◌∙◌, ◌∷◌,
  ◌≡◌, ◌≢◌,
}
use decision_intelligence_ru.Models.{PolicyProposal}
use decision_intelligence_ru.DecisionFlow.{
  ContextSnapshot, DecisionFlow, EscalationRequest, ExecutionIntent, ExplainResult, FlowEvent,
  Policy, abort, add_event, complete, create_child_flow, enlist, new_flow, record_escalation,
  record_execution, record_explain, record_policy, record_proposal, set_context,
}

-- A call of one of the flow's methods, at its time.
pub data Call (F : Type 0) : Type 0 where
  bind : ContextSnapshot F → Call F
  note_explain : ExplainResult F → Call F
  note_policy : Policy F → Call F
  note_proposal : PolicyProposal F → Call F
  note_escalation : EscalationRequest F → Call F
  note_execution : ExecutionIntent F → Call F
  finish : String → Call F
  give_up : String → Call F
  spawn : String → Call F
  add : FlowEvent F → Call F

-- Every event that names an agent has it in the list.
abbrev pub IsListed : {F : Type 0} → List String → FlowEvent F → Type 0
IsListed agents event =
    (agent : String) → agent ≢ "" → event.agent_id ≡ some agent → mem agent agents ≡ true

-- No text stands twice in the list.
abbrev pub Distinct : List String → Type 0
Distinct [] = Unit
Distinct (x ∷ xs) = (mem x xs ≡ false) × Distinct xs

-- The agents of the events are listed, once each.
abbrev pub IsConsistent : {F : Type 0} → DecisionFlow F → Type 0
IsConsistent flow =
    All (IsListed flow.participating_agents) flow.timeline × Distinct flow.participating_agents

Distinct-snoc :
    (x : String) (xs : List String) → mem x xs ≡ false → Distinct xs → Distinct (xs ++ x ∷ [])
unfolding mem
Distinct-snoc x [] n d = (refl, tt)
Distinct-snoc x (y ∷ ys) n d =
    (ground (arith, mem-snoc y x ys, eq_iff x y, eq_iff y x), Distinct-snoc x ys (ground arith) d.1)

Distinct-enlist :
    (agent : Option String) (agents : List String)
    → Distinct agents
    → Distinct (enlist agent agents)
unfolding enlist
Distinct-enlist none agents d = d
Distinct-enlist (some agent) agents d = elim (Bool-cases (agent == "" || mem agent agents)) [
  | inl e ↦ rw e d
  | inr e ↦ rw e (Distinct-snoc agent agents (ground arith) d)
]

mem-enlist :
    (a : String) (agent : Option String) (agents : List String)
    → mem a agents ≡ true
    → mem a (enlist agent agents) ≡ true
unfolding enlist
mem-enlist a none agents h = h
mem-enlist a (some agent) agents h = ground (arith, mem-snoc a agent agents)

enlisted : (a : String) (agents : List String) → a ≢ "" → mem a (enlist (some a) agents) ≡ true
unfolding enlist
enlisted a agents h = ground (arith, mem-snoc a a agents, eq_iff a "", eq_refl a)

module _ {F : Type 0} where
  IsListed-enlist :
      (agent : Option String) (agents : List String) (es : List (FlowEvent F))
      → All (IsListed agents) es
      → All (IsListed (enlist agent agents)) es
  IsListed-enlist agent agents [] h = tt
  IsListed-enlist agent agents (e ∷ es) h =
      (λ a n q. mem-enlist a agent agents (h.0 a n q), IsListed-enlist agent agents es h.1)

  enlist-IsListed : (agents : List String) (e : FlowEvent F) → IsListed (enlist e.agent_id agents) e
  enlist-IsListed agents e a n q = rw q (enlisted a agents n)

  unfoldable pub call : (ℕ → String) → (F → String) → DecisionFlow F → ℤ × Call F → DecisionFlow F
  call decimal fixed2 flow (now, bind x) = set_context now flow x
  call decimal fixed2 flow (now, note_explain x) = record_explain decimal now flow x
  call decimal fixed2 flow (now, note_policy x) = record_policy fixed2 now flow x
  call decimal fixed2 flow (now, note_proposal x) = record_proposal now flow x
  call decimal fixed2 flow (now, note_escalation x) = record_escalation now flow x
  call decimal fixed2 flow (now, note_execution x) = record_execution now flow x
  call decimal fixed2 flow (now, finish x) = complete now flow x
  call decimal fixed2 flow (now, give_up x) = abort now flow x
  call decimal fixed2 flow (now, spawn x) = create_child_flow now flow x
  call decimal fixed2 flow (now, add e) = add_event flow e

  unfoldable pub calls :
      (ℕ → String) → (F → String) → DecisionFlow F → List (ℤ × Call F) → DecisionFlow F
  calls decimal fixed2 flow [] = flow
  calls decimal fixed2 flow (c ∷ cs) = calls decimal fixed2 (call decimal fixed2 flow c) cs

  -- One event more, of which the agent is enlisted.
  abbrev pub Adds : DecisionFlow F → DecisionFlow F → Type 0
  Adds flow flow' =
      (e : FlowEvent F) × (flow'.timeline ≡ flow.timeline ++ e ∷ [])
      × (flow'.participating_agents ≡ enlist e.agent_id flow.participating_agents)

  call-Adds :
      (decimal : ℕ → String) (fixed2 : F → String) (flow : DecisionFlow F) (now : ℤ) (c : Call F)
      → Adds flow (call decimal fixed2 flow (now, c))
  unfolding call add_event set_context record_explain record_policy record_proposal
      record_escalation record_execution complete abort create_child_flow
  call-Adds decimal fixed2 flow now (bind x) = (_, refl, refl)
  call-Adds decimal fixed2 flow now (note_explain x) = (_, refl, refl)
  call-Adds decimal fixed2 flow now (note_policy x) = (_, refl, refl)
  call-Adds decimal fixed2 flow now (note_proposal x) = (_, refl, refl)
  call-Adds decimal fixed2 flow now (note_escalation x) = (_, refl, refl)
  call-Adds decimal fixed2 flow now (note_execution x) = (_, refl, refl)
  call-Adds decimal fixed2 flow now (finish x) = (_, refl, refl)
  call-Adds decimal fixed2 flow now (give_up x) = (_, refl, refl)
  call-Adds decimal fixed2 flow now (spawn x) = (_, refl, refl)
  call-Adds decimal fixed2 flow now (add e) = (e, refl, refl)

  Adds-IsConsistent :
      (flow flow' : DecisionFlow F) → Adds flow flow' → IsConsistent flow → IsConsistent flow'
  Adds-IsConsistent flow flow' (e, t, a) (listed, distinct) =
      rw (t, a)
        (
          All-append _ flow.timeline (e ∷ [])
              (IsListed-enlist e.agent_id flow.participating_agents flow.timeline listed)
              (enlist-IsListed flow.participating_agents e, tt),
          Distinct-enlist e.agent_id flow.participating_agents distinct,
        )

  calls-IsConsistent :
      (decimal : ℕ → String) (fixed2 : F → String) (flow : DecisionFlow F) (cs : List (ℤ × Call F))
      → IsConsistent flow
      → IsConsistent (calls decimal fixed2 flow cs)
  unfolding calls
  calls-IsConsistent decimal fixed2 flow [] h = h
  calls-IsConsistent decimal fixed2 flow ((now, c) ∷ cs) h =
      calls-IsConsistent decimal fixed2 (call decimal fixed2 flow (now, c)) cs (
        Adds-IsConsistent flow (call decimal fixed2 flow (now, c))
          (call-Adds decimal fixed2 flow now c) h)

  -- Later calls keep a flow's timeline as a prefix and add one event each.
  pub calls-timeline :
      (decimal : ℕ → String) (fixed2 : F → String) (flow : DecisionFlow F) (cs : List (ℤ × Call F))
      → (added : List (FlowEvent F)) × ((calls decimal fixed2 flow cs).timeline
          ≡ flow.timeline ++ added)
        × (length added ≡ length cs)
  unfolding calls
  calls-timeline decimal fixed2 flow [] = ([], sym (append-nil flow.timeline), refl)
  calls-timeline decimal fixed2 flow ((now, c) ∷ cs) =
      let (e, t, a) = call-Adds decimal fixed2 flow now c in
      let (added, q, n) = calls-timeline decimal fixed2 (call decimal fixed2 flow (now, c)) cs in
      (
        e ∷ added,
        q ∙ ap (λ es. es ++ added) t ∙ append_assoc flow.timeline (e ∷ []) added,
        ap suc n,
      )

  -- After any calls of the methods of a new flow, whatever they record, the flow lists every agent
  -- that an event of the timeline names, each once.
  pub new_flow-IsConsistent :
      (decimal : ℕ → String) (fixed2 : F → String) (dfid : String) (parent : Option String)
      (cs : List (ℤ × Call F))
      → IsConsistent (calls decimal fixed2 (new_flow dfid parent) cs)
  new_flow-IsConsistent decimal fixed2 dfid parent cs =
      calls-IsConsistent decimal fixed2 (new_flow dfid parent) cs (tt, tt)
