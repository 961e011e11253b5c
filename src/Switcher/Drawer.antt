-- ===== src/Switcher/Drawer.antt =====
-- frontend/src/components/MobileDrawer.tsx: the list of workspaces in the drawer and its form for a new one. `open` is the
-- state of frontend/src/components/Layout.tsx. An event that the drawer does not offer changes nothing.
use agentleh_app.Base.{
  ℕ, ◌+◌, ◌-◌, Bool, true, false, ◌&&◌, List, [], ◌∷◌, Option, none, some, Text, is_empty, trim,
  ◌==◌, if◌then◌else◌,
}
use agentleh_app.Js.{Outcome, ok, throw, Error}

pub record Drawer : Type 0 where
  pub open_now : Bool
  pub creating : Bool
  pub new_name : Text
  pub create_error : Option Error
  pub in_flight : ℕ  -- calls of `createTenant`
  pub requests : List Text  -- what it was given, the latest first
  pub selected : List ℕ  -- calls of `onTenantSelect`, the latest first
  pub refreshed : ℕ  -- calls of `onRefreshTenants`

unfoldable pub closed : Drawer
closed = record {
  open_now = false;
  creating = false;
  new_name = [];
  create_error = none;
  in_flight = 0;
  requests = [];
  selected = [];
  refreshed = 0;
}

-- The button behind the form.
unfoldable pub cancel_form : Drawer → Drawer
cancel_form s = record s { creating = false; new_name = []; create_error = none }

-- `onClose`, and the effect that resets the form of a closed drawer.
unfoldable pub close : Drawer → Drawer
unfolding cancel_form
close s = if s.open_now then cancel_form (record s { open_now = false }) else s

-- `handleCreate`, by Enter or the button, up to its request.
unfoldable pub handle_create : Drawer → Drawer
handle_create s =
    if is_empty (trim s.new_name)
    then s
    else record s { in_flight = s.in_flight + 1; requests = trim s.new_name ∷ s.requests }

-- The rest of it.
unfoldable pub created : Outcome ℕ → Drawer → Drawer
unfolding cancel_form close
created (ok tenant) s =
    close (cancel_form (record s { refreshed = s.refreshed + 1; selected = tenant ∷ s.selected }))
created (throw e) s = record s { create_error = some e }

unfoldable pub create_answered : Outcome ℕ → Drawer → Drawer
unfolding created
create_answered r s =
    if s.in_flight == 0 then s else created r (record s { in_flight = s.in_flight - 1 })

pub data Event : Type 0 where
  opened dismissed form_pressed form_cancelled submitted : Event
  picked : ℕ → Event
  typed : Text → Event
  answered : Outcome ℕ → Event

abbrev pub has_form : Drawer → Bool
has_form s = s.open_now && s.creating

unfoldable pub step : Event → Drawer → Drawer
unfolding close cancel_form handle_create create_answered
step opened s = record s { open_now = true }
step dismissed s = close s
step form_pressed s = if s.open_now then record s { creating = true } else s
step form_cancelled s = if has_form s then cancel_form s else s
step submitted s = if has_form s then handle_create s else s
step (picked tenant) s =
    if s.open_now then close (record s { selected = tenant ∷ s.selected }) else s
step (typed name) s = if has_form s then record s { new_name = name } else s
step (answered r) s = create_answered r s

unfoldable pub run : List Event → Drawer → Drawer
run [] s = s
run (e ∷ es) s = run es (step e s)
