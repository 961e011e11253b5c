-- ===== src/Admin/Runs.antt =====
-- Runs of `AdminPage` in frontend/src/pages/AdminPage.tsx: the user's events and the answers of the services. An event that
-- the page does not offer changes nothing; while it loads, it offers nothing.
use agentleh_app.Base.{
  take_at, ℕ, Bool, true, false, not, ◌&&◌, List, [], ◌∷◌, Option, none, some, Text, if◌then◌else◌,
}
use agentleh_app.Js.{Js, Outcome}
use agentleh_app.Admin.State.{
  Tab, Overview, Call, get_overview, get_detail, rotate_key, delete_agent, set_model, set_role,
  Waiter, no_one, Admin, is_some,
}
use agentleh_app.Admin.Page.{
  reload, go_on, overview_arrived, select, detail_arrived, handle_rotate_key, handle_delete_agent,
  type_confirmation, cancel_delete, handle_confirm_delete_agent, delete_answered,
  handle_switch_model, cancel_switch, handle_confirm_switch_model, switch_answered, handle_promote,
  promote_answered,
}

-- `if (loading) …`, `if (error && !overview) …`, `if (!overview) …`
unfoldable pub is_ready : Admin → Bool
is_ready s = not s.loading && is_some s.overview

-- What the services answer at a moment.
pub record Answers : Type 0 where
  pub overview : Outcome Overview
  pub detail : Text → Outcome Js
  pub done : Outcome (Unit {0})

unfoldable pub answered : Answers → Call → Waiter → Admin → Admin
unfolding go_on overview_arrived
answered a get_overview w s = go_on w (overview_arrived a.overview s)
answered a (get_detail agent) w s = detail_arrived (a.detail agent) s
answered a (rotate_key agent) w s = s
answered a (delete_agent tenant agent) w s = delete_answered a.done s
answered a (set_model agent model) w s = switch_answered a.done s
answered a (set_role user role) w s = promote_answered a.done s

-- What the user does.
pub data Action : Type 0 where
  refreshed delete_cancelled delete_confirmed switch_cancelled switch_confirmed closed : Action
  picked : Tab → Action
  selected : Text → Action
  rotated : Text → Bool → Action
  delete_asked : Text → Option ℕ → Option Text → Action
  typed : Text → Action
  model_chosen : Text → Option Text → Text → Action
  promoted : ℕ → Text → Bool → Action

-- On a page that is ready.
unfoldable pub act : Action → Admin → Admin
unfolding reload
act refreshed s = reload no_one s
act delete_cancelled s = cancel_delete s
act delete_confirmed s = handle_confirm_delete_agent s
act switch_cancelled s = cancel_switch s
act switch_confirmed s = handle_confirm_switch_model s
act closed s = if is_some s.selected then select none s else s
act (picked tab) s = record s { tab = tab }
act (selected agent) s = select (some agent) s
act (rotated agent agreed) s = handle_rotate_key agent agreed s
act (delete_asked agent tenant name) s = handle_delete_agent agent tenant name s
act (typed text) s = type_confirmation text s
act (model_chosen agent current new) s = handle_switch_model agent current new s
act (promoted user role agreed) s = handle_promote user role agreed s

unfoldable pub arrive : ℕ → Answers → Admin → Admin
unfolding answered
arrive n a s = elim (take_at n s.pending) [
  | none ↦ s
  | some ((c, w), rest) ↦ answered a c w (record s { pending = rest })
]

pub data Event : Type 0 where
  does : Action → Event
  arrived : ℕ → Answers → Event

unfoldable pub step : Event → Admin → Admin
step (does a) s = if is_ready s then act a s else s
step (arrived n a) s = arrive n a s

unfoldable pub run : List Event → Admin → Admin
run [] s = s
run (e ∷ es) s = run es (step e s)

-- The page once its effects have run for the first time.
unfoldable pub mounted : Tab → Admin
unfolding reload
mounted tab = reload no_one (record {
  loading = true;
  overview = none;
  shown_error = none;
  selected = none;
  detail = none;
  tab = tab;
  deleting = none;
  delete_in_progress = false;
  delete_error = none;
  confirm_text = [];
  switching = none;
  switch_in_progress = false;
  switch_error = none;
  calls = [];
  pending = [];
})
