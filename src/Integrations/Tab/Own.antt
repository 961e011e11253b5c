-- ===== src/Integrations/Tab/Own.antt =====
-- What the row of an agent shows.
use agentleh_app.Base.{
  take_at, ℕ, zero, suc, Bool, true, false, List, [], ◌∷◌, none, some, Text, text_eq, text_eq_sound,
  All, ◌≡◌, refl, arith, ◌⊎◌, inl, inr, Bool-cases, Option-cases,
}
use agentleh_app.Js.{Js, Outcome}
use agentleh_app.Integrations.Tab.{
  AgentIntegrations, Request, Tab, lookup, loading_entry, all_loading, load, show, entry_of,
  arrived, copy_link, timer_fired, Event, shown, answered, copied_link, two_seconds, step, run,
  mounted, row,
}

module _ (fetch : Request → Outcome Js) where
  -- An entry of an agent loads, or is the answer to a request for this agent.
  abbrev pub IsOwn : Text × AgentIntegrations → Type 0
  IsOwn (a, v) = (v ≡ loading_entry) ⊎ ((q : Request) × (q.agent_id ≡ a) × (v ≡ entry_of (fetch q)))

  all_loading-IsOwn : (agents : List Text) → All IsOwn (all_loading agents)
  unfolding all_loading
  all_loading-IsOwn [] = tt
  all_loading-IsOwn (a ∷ agents) = (inl refl, all_loading-IsOwn agents)

  show-IsOwn :
      (same : Bool) (tenant : ℕ) (agents : List Text) (s : Tab)
      → All IsOwn s.by_agent
      → All IsOwn (show same tenant agents s).by_agent
  unfolding show load
  show-IsOwn true tenant agents s h = h
  show-IsOwn false tenant agents s h = all_loading-IsOwn agents

  arrived-IsOwn : (n : ℕ) (s : Tab) → All IsOwn s.by_agent → All IsOwn (arrived fetch n s).by_agent
  unfolding arrived
  arrived-IsOwn n s h = elim (Option-cases (take_at n s.in_flight)) [
    | inl e ↦ rw (arrived, e) h
    | inr ((q, rest), e) ↦ rw (arrived, e) (inr (q, refl, refl), h)
  ]

  step-IsOwn : (e : Event) (s : Tab) → All IsOwn s.by_agent → All IsOwn (step fetch e s).by_agent
  unfolding step copy_link timer_fired
  step-IsOwn (shown same tenant agents) s h = show-IsOwn same tenant agents s h
  step-IsOwn (answered n) s h = arrived-IsOwn n s h
  step-IsOwn (copied_link key) s h = h
  step-IsOwn two_seconds s h = timer s.timers
    where
      timer :
          (n : ℕ)
          → All IsOwn
              (elim n as (λ m. Tab) [
                | zero ↦ s
                | suc m ↦ record s { copied = none; timers = m }
              ]).by_agent
      timer zero = h
      timer (suc m) = h

  run-IsOwn :
      (es : List Event) (s : Tab) → All IsOwn s.by_agent → All IsOwn (run fetch es s).by_agent
  unfolding run
  run-IsOwn [] s h = h
  run-IsOwn (e ∷ es) s h = run-IsOwn es (step fetch e s) (step-IsOwn e s h)

  lookup-IsOwn :
      (a : Text) (v : AgentIntegrations) (m : List (Text × AgentIntegrations))
      → All IsOwn m
      → lookup a m ≡ some v
      → IsOwn (a, v)
  unfolding lookup
  lookup-IsOwn a v [] h e = absurd (ground arith)
  lookup-IsOwn a v ((b, w) ∷ m) (h, hs) e = elim (Bool-cases (text_eq b a)) [
    | inl q ↦
        let same : b ≡ a = text_eq_sound b a q in
        let value : w ≡ v = ground arith in rw (← same, ← value) h
    | inr q ↦ lookup-IsOwn a v m hs (ground arith)
  ]

  -- In whatever order the answers come, the row of an agent loads, or shows what a request for that very agent was
  -- answered with.
  pub row-IsOwn :
      (es : List Event) (tenant : ℕ) (agents : List Text) (a : Text) (v : AgentIntegrations)
      → row (run fetch es (mounted tenant agents)) a ≡ some v
      → IsOwn (a, v)
  unfolding row
  row-IsOwn es tenant agents a v e =
      lookup-IsOwn a v (run fetch es (mounted tenant agents)).by_agent
        (run-IsOwn es (mounted tenant agents) (unfold mounted load in all_loading-IsOwn agents)) e
