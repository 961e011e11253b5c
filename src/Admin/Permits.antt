-- ===== src/Admin/Permits.antt =====
-- What the calls of the administration that change an agent or a user take.
use agentleh_app.Base.{
  take_at, List, [], ◌∷◌, none, some, Text, arith, All, inl, inr, Option-cases, if_elim,
}
use agentleh_app.Js.{Outcome, ok, throw, Outcome-cases}
use agentleh_app.Admin.State.{
  Tab, Overview, Call, get_overview, get_detail, rotate_key, delete_agent, set_model, set_role,
  Waiter, no_one, deletion, switch, Admin, is_some,
}
use agentleh_app.Admin.Page.{
  reload, go_on, overview_arrived, detail_arrived, handle_rotate_key, type_confirmation,
  cancel_delete, delete_answered, cancel_switch, switch_answered, handle_promote, promote_answered,
  new_role,
}
use agentleh_app.Admin.Runs.{
  is_ready, Answers, answered, Action, Event, does, refreshed, delete_cancelled, delete_confirmed,
  switch_cancelled, switch_confirmed, closed, picked, selected, rotated, delete_asked, typed,
  model_chosen, promoted, arrived, act, arrive, step, run, mounted,
}
use agentleh_app.Admin.Wanted.{
  Permitted, Allowed, Granted, Invariant, called, no_target, no_text, no_switch, reload-Invariant,
  select-Invariant, asked-Invariant, deleted-Invariant, switched-Invariant, chosen-Invariant,
  agreed-Invariant,
}

-- `Wanted` is a set of calls, and `Typed` one of texts.
module _ (Wanted : Call → Type 0) (Typed : Text → Type 0) where
  act-Invariant :
      (e : Action) (s : Admin)
      → Allowed Wanted Typed e
      → Invariant Wanted Typed s
      → Invariant Wanted Typed (act e s)
  unfolding act cancel_delete cancel_switch handle_rotate_key handle_promote type_confirmation
  act-Invariant refreshed s p h = reload-Invariant Wanted Typed no_one s h
  act-Invariant delete_cancelled s p h =
      if_elim (Invariant Wanted Typed) s.delete_in_progress _ _ h (no_target Wanted Typed h)
  act-Invariant delete_confirmed s p h = deleted-Invariant Wanted Typed s h
  act-Invariant switch_cancelled s p h =
      if_elim (Invariant Wanted Typed) s.switch_in_progress _ _ h (no_switch Wanted Typed h)
  act-Invariant switch_confirmed s p h = switched-Invariant Wanted Typed s h
  act-Invariant closed s p h =
      if_elim (Invariant Wanted Typed) (is_some s.selected) _ _
        (select-Invariant Wanted Typed none s h) h
  act-Invariant (picked tab) s p h = h
  act-Invariant (selected agent) s p h = select-Invariant Wanted Typed (some agent) s h
  act-Invariant (rotated agent agreed) s p h =
      (agreed-Invariant Wanted Typed) agreed (rotate_key agent) s p h
  act-Invariant (delete_asked agent tenant name) s p h =
      (asked-Invariant Wanted Typed) agent tenant name s p h
  act-Invariant (typed text) s p h =
      if_elim (Invariant Wanted Typed) _ _ s
        (record { target = h.target; text = λ q. p; model = h.model; granted = h.granted }) h
  act-Invariant (model_chosen agent current new) s p h =
      (chosen-Invariant Wanted Typed) agent current new s p h
  act-Invariant (promoted user role agreed) s p h =
      (agreed-Invariant Wanted Typed) agreed (set_role user (new_role role)) s p h

  answered-Invariant :
      (a : Answers) (c : Call) (w : Waiter) (s : Admin)
      → Invariant Wanted Typed s
      → Invariant Wanted Typed (answered a c w s)
  unfolding answered go_on overview_arrived detail_arrived delete_answered switch_answered
      promote_answered
  answered-Invariant a get_overview w s h = went w a.overview
    where
      arrived_lem : (o : Outcome Overview) → Invariant Wanted Typed (overview_arrived o s)
      arrived_lem (ok o) = h
      arrived_lem (throw e) = h

      went :
          (w : Waiter) (o : Outcome Overview)
          → Invariant Wanted Typed (go_on w (overview_arrived o s))
      went no_one o = arrived_lem o
      went deletion o = arrived_lem o
      went switch o = arrived_lem o
  answered-Invariant a (get_detail agent) w s h = elim (Outcome-cases (a.detail agent)) [
    | inl (d, e) ↦ rw e h
    | inr (x, e) ↦ rw e h
  ]
  answered-Invariant a (rotate_key agent) w s h = h
  answered-Invariant a (delete_agent tenant agent) w s h = elim (Outcome-cases a.done) [
    | inl (u, e) ↦
        rw e (unfold reload in called Wanted Typed get_overview tt (no_target Wanted Typed h))
    | inr (x, e) ↦ rw e h
  ]
  answered-Invariant a (set_model agent model) w s h = elim (Outcome-cases a.done) [
    | inl (u, e) ↦ rw e (
        unfold reload in
        (called Wanted Typed) get_overview tt (no_text Wanted Typed (no_switch Wanted Typed h)))
    | inr (x, e) ↦ rw e h
  ]
  answered-Invariant a (set_role user role) w s h = elim (Outcome-cases a.done) [
    | inl (u, e) ↦ rw e (reload-Invariant Wanted Typed no_one s h)
    | inr (x, e) ↦ rw e h
  ]

  step-Invariant :
      (e : Event) (s : Admin)
      → Permitted Wanted Typed e
      → Invariant Wanted Typed s
      → Invariant Wanted Typed (step e s)
  unfolding step arrive
  step-Invariant (does a) s p h =
      if_elim (Invariant Wanted Typed) (is_ready s) _ s (act-Invariant a s p h) h
  step-Invariant (arrived n a) s p h = elim (Option-cases (take_at n s.pending)) [
    | inl e ↦ rw (arrive, e) h
    | inr (((c, w), rest), e) ↦
        rw (arrive, e) (answered-Invariant a c w (record s { pending = rest }) h)
  ]

  run-Invariant :
      (es : List Event) (s : Admin)
      → All (Permitted Wanted Typed) es
      → Invariant Wanted Typed s
      → Invariant Wanted Typed (run es s)
  unfolding run
  run-Invariant [] s p h = h
  run-Invariant (e ∷ es) s (p, ps) h = run-Invariant es (step e s) ps (step-Invariant e s p h)

  -- Where the calls that rows, choices of a model and agreed dialogs ask for are all in one set, and the texts that
  -- are typed in another, the page makes no other calls that change an agent or a user: it deletes only an agent that
  -- was asked for in its workspace and whose id was typed, switches only to a model that differs from the current
  -- one, and rotates a key or changes a role only as agreed.
  pub run-mounted-Granted :
      (es : List Event) (tab : Tab)
      → All (Permitted Wanted Typed) es
      → All (Granted Wanted Typed) (run es (mounted tab)).calls
  run-mounted-Granted es tab p =
      (run-Invariant es (mounted tab) p (
        unfold mounted reload in
        record {
          target = λ d e. absurd (ground arith);
          text = λ q. absurd (ground arith);
          model = λ w e. absurd (ground arith);
          granted = (tt, tt);
        })).granted
