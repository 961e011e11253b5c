-- ===== src/Workspace/Deletion/Permits.antt =====
-- What an agent's deletion takes.
use agentleh_app.Base.{
  true, false, List, [], ◌∷◌, Option, none, some, Text, is_empty, text_eq_sound, ◌≡◌, arith, All,
  inl, inr, Bool-cases, Option-cases, if_elim,
}
use agentleh_app.Js.{ok, throw}
use agentleh_app.Workspace.Deletion.{
  is_shown, Deletion, ask_delete, cancel, type_confirmation, handle_delete_agent, delete_answered,
  can_confirm, Event, asked, typed, cancelled, confirmed, answered, step, run, closed,
}

module _ (Asked Typed : Text → Type 0) where
  abbrev pub Permitted : Event → Type 0
  Permitted (asked agent) = Asked agent
  Permitted (typed text) = Typed text
  Permitted _ = Unit

  abbrev pub Granted : Text → Type 0
  Granted a = Asked a × Typed a × (is_empty a ≡ false)

  -- It reads these fields of a state.
  record IsPermitted (deleting : Option Text) (confirm_text : Text) (requests : List Text)
      : Type 0 where
    agent : (a : Text) → deleting ≡ some a → Asked a
    text : is_empty confirm_text ≡ false → Typed confirm_text
    granted : All Granted requests

  abbrev Invariant : Deletion → Type 0
  Invariant s = IsPermitted s.deleting s.confirm_text s.requests

  forgotten : (s : Deletion) → Invariant s → IsPermitted none s.confirm_text s.requests
  forgotten s h = record {
    agent = λ a e. absurd (ground arith);
    text = h.text;
    granted = h.granted;
  }

  handle_delete_agent-Invariant :
      (s : Deletion) → Invariant s → can_confirm s ≡ true → Invariant (handle_delete_agent s)
  unfolding handle_delete_agent can_confirm
  handle_delete_agent-Invariant s h c = elim (Option-cases s.deleting) [
    | inl e ↦ rw (handle_delete_agent, e) h
    | inr (a, e) ↦ elim (Bool-cases (is_empty a)) [
      | inl q ↦ rw (handle_delete_agent, e, q) h
      | inr q ↦
          let same : s.confirm_text ≡ a = text_eq_sound s.confirm_text a (ground arith) in
          let typed_it : Typed a = rw (← same) (h.text (ground arith)) in
          rw (handle_delete_agent, e, q)
            (record {
              agent = λ b w. h.agent b (ground arith);
              text = h.text;
              granted = ((h.agent a e, typed_it, q), h.granted);
            })
    ]
  ]

  step-Invariant : (e : Event) (s : Deletion) → Permitted e → Invariant s → Invariant (step e s)
  unfolding step ask_delete cancel type_confirmation delete_answered
  step-Invariant (asked agent) s p h = if_elim Invariant (is_shown s.deleting) s _ h (record {
    agent = λ a q. let same : agent ≡ a = ground arith in rw (← same) p;
    text = λ q. absurd (ground arith);
    granted = h.granted;
  })
  step-Invariant cancelled s p h = if_elim Invariant _ s _ h (forgotten s h)
  step-Invariant (typed text) s p h =
      if_elim Invariant _ s _ h (record { agent = h.agent; text = λ q. p; granted = h.granted })
  step-Invariant confirmed s p h = elim (Bool-cases (can_confirm s)) [
    | inl e ↦ rw (step, e) (handle_delete_agent-Invariant s h e)
    | inr e ↦ rw (step, e) h
  ]
  step-Invariant (answered (ok u)) s p h = if_elim Invariant s.in_progress _ s (forgotten s h) h
  step-Invariant (answered (throw e)) s p h = if_elim Invariant s.in_progress _ s h h

  run-Invariant :
      (es : List Event) (s : Deletion) → All Permitted es → Invariant s → Invariant (run es s)
  unfolding run
  run-Invariant [] s p h = h
  run-Invariant (e ∷ es) s (p, ps) h = run-Invariant es (step e s) ps (step-Invariant e s p h)

  -- Where every agent whose button was pressed is in one set of texts, and every text that was typed is in another, all
  -- agents that are asked to be deleted are in both, and have an id that is not empty: no agent is deleted but one that
  -- was chosen and whose id was typed.
  pub run-Granted : (es : List Event) → All Permitted es → All Granted (run es closed).requests
  run-Granted es p =
      (run-Invariant es closed p (
        unfold closed in
        record {
          agent = λ a e. absurd (ground arith);
          text = λ q. absurd (ground arith);
          granted = tt;
        })).granted
