-- ===== src/Admin/Page.antt =====
-- The handlers of `AdminPage` in frontend/src/pages/AdminPage.tsx, and what it shows. State updates are applied at once.
use agentleh_app.Base.{
  ℕ, Bool, true, false, not, ◌&&◌, List, [], ◌∷◌, Option, none, some, Text, codes, is_empty,
  text_eq, if◌then◌else◌,
}
use agentleh_app.Js.{Js, Outcome, ok, throw, Error}
use agentleh_app.Admin.State.{
  Tab, AgentRow, Overview, Target, get_overview, get_detail, rotate_key, delete_agent, set_model,
  set_role, Waiter, no_one, deletion, switch, Admin, calling_for, calling, is_some,
}

-- `reload`, up to its request. The page is replaced while it loads, and the modal forgets what was typed.
unfoldable pub reload : Waiter → Admin → Admin
reload w s =
    calling_for w get_overview (record s { loading = true; shown_error = none; confirm_text = [] })

-- What stands behind `await reload()`.
unfoldable pub go_on : Waiter → Admin → Admin
go_on no_one s = s
go_on deletion s = record s { delete_in_progress = false }
go_on switch s = record s { switch_in_progress = false }

unfoldable pub overview_arrived : Outcome Overview → Admin → Admin
overview_arrived (ok o) s = record s { overview = some o; loading = false }
overview_arrived (throw e) s = record s { shown_error = some e; loading = false }

-- `setSelectedAgentId`, and the effect on it.
unfoldable pub select : Option Text → Admin → Admin
select none s = record s { selected = none; detail = none }
select (some a) s =
    let there = record s { selected = some a } in
    let asked : Admin = elim s.selected [
      | none ↦ calling (get_detail a) there
      | some b ↦ if text_eq b a then there else calling (get_detail a) there
    ] in
    if is_empty a then record there { detail = none } else asked

-- The end of a call of `getAdminAgentDetail`, which nothing cancels.
unfoldable pub detail_arrived : Outcome Js → Admin → Admin
detail_arrived (ok d) s = record s { detail = some d }
detail_arrived (throw e) s = record s { shown_error = some e }

-- `handleRotateKey`, with the answer of the browser's dialog.
unfoldable pub handle_rotate_key : Text → Bool → Admin → Admin
handle_rotate_key agent agreed s = if agreed then calling (rotate_key agent) s else s

-- The text of the modal, which begins empty where it was not there.
abbrev pub modal_text : Option Target → Text → Text
modal_text none text = []
modal_text (some d) text = text

-- `handleDeleteAgent`: a row without a tenant is refused.
unfoldable pub handle_delete_agent : Text → Option ℕ → Option Text → Admin → Admin
handle_delete_agent agent none name s = s
handle_delete_agent agent (some tenant) name s = record s {
  deleting = some (record { agent_id = agent; agent_name = name; tenant_id = tenant });
  delete_error = none;
  confirm_text = modal_text s.deleting s.confirm_text;
}

unfoldable pub type_confirmation : Text → Admin → Admin
type_confirmation text s =
    if is_some s.deleting && not s.delete_in_progress then record s { confirm_text = text } else s

unfoldable pub cancel_delete : Admin → Admin
cancel_delete s =
    if s.delete_in_progress
    then s
    else record s { deleting = none; delete_error = none; confirm_text = [] }

-- `handleConfirmDeleteAgent` by the button of the modal, which wants the agent's id typed, up to its request.
unfoldable pub handle_confirm_delete_agent : Admin → Admin
handle_confirm_delete_agent s = elim s.deleting [
  | none ↦ s
  | some d ↦
      if text_eq s.confirm_text d.agent_id && not s.delete_in_progress
      then calling (delete_agent d.tenant_id d.agent_id)
          (record s { delete_in_progress = true; delete_error = none })
      else s
]

-- The rest of it; after a deletion the flag is lowered only when the overview has come.
unfoldable pub delete_answered : Outcome (Unit {0}) → Admin → Admin
unfolding reload
delete_answered (ok u) s = reload deletion (record s { deleting = none; confirm_text = [] })
delete_answered (throw e) s = record s { delete_error = some e; delete_in_progress = false }

unfoldable pub default_model : Text
default_model = codes "google/gemini-3-flash-preview"

-- `currentModel ?? 'google/gemini-3-flash-preview'`
abbrev pub model_or_default : Option Text → Text
model_or_default none = default_model
model_or_default (some m) = m

unfoldable pub find_agent : Text → List AgentRow → Option AgentRow
find_agent a [] = none
find_agent a (r ∷ rs) = if text_eq r.agent_id a then some r else find_agent a rs

abbrev pub agents_of : Option Overview → List AgentRow
agents_of none = []
agents_of (some o) = o.agents

abbrev pub name_of : Option AgentRow → Option Text
name_of none = none
name_of (some r) = r.agent_name

-- `handleSwitchModel`
unfoldable pub handle_switch_model : Text → Option Text → Text → Admin → Admin
handle_switch_model agent current new s =
    if text_eq (model_or_default current) new then s else record s {
      switching = some (record {
        agent_id = agent;
        agent_name = name_of (find_agent agent (agents_of s.overview));
        from = current;
        to = new;
      });
      switch_error = none;
    }

unfoldable pub cancel_switch : Admin → Admin
cancel_switch s =
    if s.switch_in_progress then s else record s { switching = none; switch_error = none }

-- `handleConfirmSwitchModel` by the button of frontend/src/components/SwitchModelModal.tsx, up to its request.
unfoldable pub handle_confirm_switch_model : Admin → Admin
handle_confirm_switch_model s = elim s.switching [
  | none ↦ s
  | some w ↦
      if s.switch_in_progress
      then s
      else calling (set_model w.agent_id w.to)
          (record s { switch_in_progress = true; switch_error = none })
]

unfoldable pub switch_answered : Outcome (Unit {0}) → Admin → Admin
unfolding reload
switch_answered (ok u) s = reload switch (record s { switching = none })
switch_answered (throw e) s = record s { switch_error = some e; switch_in_progress = false }

-- The role that `handlePromote` asks for.
unfoldable pub new_role : Text → Text
new_role role = if text_eq role (codes "superadmin") then codes "user" else codes "superadmin"

unfoldable pub handle_promote : ℕ → Text → Bool → Admin → Admin
handle_promote user role agreed s = if agreed then calling (set_role user (new_role role)) s else s

unfoldable pub promote_answered : Outcome (Unit {0}) → Admin → Admin
unfolding reload
promote_answered (ok u) s = reload no_one s
promote_answered (throw e) s = s

pub data View : Type 0 where
  loading_view nothing : View
  error_view : Error → View
  content : Tab → Overview → Option (Option Js) → View  -- with the modal for an agent and its details

unfoldable pub view : Admin → View
view s = if s.loading then loading_view else elim s.overview [
  | none ↦ elim s.shown_error [ none ↦ nothing | some e ↦ error_view e ]
  | some o ↦
      content s.tab o
        (elim s.selected [ none ↦ none | some a ↦ if is_empty a then none else some s.detail ])
]
