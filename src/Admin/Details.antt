-- ===== src/Admin/Details.antt =====
-- What the page of the administration shows of the details of an agent, and of errors.
use agentleh_app.Base.{
  take_at, true, false, List, [], ◌∷◌, none, some, Text, ◌≡◌, arith, inl, inr, Option-cases,
  if_elim, is_empty, ◌≢◌,
}
use agentleh_app.Js.{Js, ok, Error}
use agentleh_app.Admin.State.{
  Overview, Call, get_overview, get_detail, rotate_key, delete_agent, set_model, set_role, Waiter,
  no_one, deletion, switch, Admin, is_some,
}
use agentleh_app.Admin.Page.{
  reload, go_on, overview_arrived, select, detail_arrived, handle_rotate_key, handle_delete_agent,
  type_confirmation, cancel_delete, handle_confirm_delete_agent, delete_answered,
  handle_switch_model, cancel_switch, handle_confirm_switch_model, switch_answered, handle_promote,
  promote_answered, view, content, error_view,
}
use agentleh_app.Admin.Runs.{
  is_ready, Answers, answered, Action, Event, does, refreshed, delete_cancelled, delete_confirmed,
  switch_cancelled, switch_confirmed, closed, picked, selected, rotated, delete_asked, typed,
  model_chosen, promoted, arrived, act, arrive, step, run,
}

-- The details of one agent are asked for and closed, and then those of another. Where the first are answered before
-- the second, they are shown in the modal that was opened for the second agent.
run-other_detail :
    (a b : Text) (d : Js) (answers : Answers) (o : Overview) (s : Admin)
    → s.loading ≡ false
    → s.overview ≡ some o
    → s.selected ≡ none
    → is_empty a ≡ false
    → is_empty b ≡ false
    → answers.detail a ≡ ok d
    → view (run (does (selected a) ∷ does closed ∷ does (selected b) ∷ arrived 1 answers ∷ []) s)
      ≡ content s.tab o (some (some d))
unfolding run step act select arrive answered detail_arrived take_at view is_ready
run-other_detail a b d answers o s loaded e q na nb r = ground arith

abbrev HasOverview : Admin → Type 0
HasOverview s = is_some s.overview ≡ true

act-HasOverview : (a : Action) (s : Admin) → HasOverview s → HasOverview (act a s)
unfolding act cancel_delete cancel_switch handle_rotate_key handle_promote type_confirmation reload
    select handle_delete_agent handle_confirm_delete_agent handle_switch_model
    handle_confirm_switch_model
act-HasOverview refreshed s h = h
act-HasOverview delete_cancelled s h = ground arith
act-HasOverview delete_confirmed s h = ground arith
act-HasOverview switch_cancelled s h = ground arith
act-HasOverview switch_confirmed s h = ground arith
act-HasOverview closed s h = ground arith
act-HasOverview (picked tab) s h = h
act-HasOverview (selected agent) s h = ground arith
act-HasOverview (rotated agent agreed) s h = ground arith
act-HasOverview (delete_asked agent none name) s h = h
act-HasOverview (delete_asked agent (some tenant) name) s h = h
act-HasOverview (typed text) s h = ground arith
act-HasOverview (model_chosen agent current new) s h = ground arith
act-HasOverview (promoted user role agreed) s h = ground arith

answered-HasOverview :
    (a : Answers) (c : Call) (w : Waiter) (s : Admin)
    → HasOverview s
    → HasOverview (answered a c w s)
unfolding answered go_on overview_arrived detail_arrived delete_answered switch_answered
    promote_answered reload
answered-HasOverview a get_overview no_one s h = ground arith
answered-HasOverview a get_overview deletion s h = ground arith
answered-HasOverview a get_overview switch s h = ground arith
answered-HasOverview a (get_detail agent) w s h = ground arith
answered-HasOverview a (rotate_key agent) w s h = h
answered-HasOverview a (delete_agent tenant agent) w s h = ground arith
answered-HasOverview a (set_model agent model) w s h = ground arith
answered-HasOverview a (set_role user role) w s h = ground arith

step-HasOverview : (e : Event) (s : Admin) → HasOverview s → HasOverview (step e s)
unfolding step arrive
step-HasOverview (does a) s h = if_elim HasOverview (is_ready s) _ s (act-HasOverview a s h) h
step-HasOverview (arrived n a) s h = elim (Option-cases (take_at n s.pending)) [
  | inl e ↦ rw (arrive, e) h
  | inr (((c, w), rest), e) ↦
      rw (arrive, e) (answered-HasOverview a c w (record s { pending = rest }) h)
]

run-HasOverview : (es : List Event) (s : Admin) → HasOverview s → HasOverview (run es s)
unfolding run
run-HasOverview [] s h = h
run-HasOverview (e ∷ es) s h = run-HasOverview es (step e s) (step-HasOverview e s h)

view-error : (s : Admin) (x : Error) → HasOverview s → view s ≢ error_view x
unfolding view
view-error s x h = ground arith

-- Once an overview has come, the page never shows an error again, whatever happens: neither that of a later refresh
-- nor that of the details of an agent.
run-error :
    (es : List Event) (s : Admin) (x : Error)
    → is_some s.overview ≡ true
    → view (run es s) ≢ error_view x
run-error es s x h = view-error (run es s) x (run-HasOverview es s h)
