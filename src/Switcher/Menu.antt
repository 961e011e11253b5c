-- ===== src/Switcher/Menu.antt =====
-- frontend/src/components/TenantSwitcher.tsx: the dropdown of workspaces and its form for a new one. An event that the menu
-- does not offer changes nothing.
use agentleh_app.Base.{
  ℕ, ◌+◌, ◌-◌, Bool, true, false, not, ◌&&◌, List, [], ◌∷◌, Option, none, some, Text, is_empty,
  trim, find, ◌==◌, if◌then◌else◌,
}
use agentleh_app.Js.{Outcome, ok, throw}

-- `tenants.find((t) => t.id === activeTenantId) || tenants[0] || null`
unfoldable pub active_tenant : List ℕ → Option ℕ → Option ℕ
active_tenant [] active = none
active_tenant (t ∷ ts) none = some t
active_tenant (t ∷ ts) (some a) = elim (find (λ u. u == a) (t ∷ ts)) [
  | none ↦ some t
  | some u ↦ some u
]

pub record Menu : Type 0 where
  pub open_now : Bool
  pub creating : Bool  -- whether the form is there
  pub new_name : Text
  pub in_flight : ℕ  -- calls of `createTenant`
  pub requests : List Text  -- what it was given, the latest first
  pub selected : List ℕ  -- calls of `onSelect`, the latest first
  pub refreshed : ℕ  -- calls of `onRefresh`
  pub alerts : ℕ

unfoldable pub closed : Menu
closed = record {
  open_now = false;
  creating = false;
  new_name = [];
  in_flight = 0;
  requests = [];
  selected = [];
  refreshed = 0;
  alerts = 0;
}

abbrev pub has_form : Menu → Bool
has_form s = s.open_now && s.creating

-- `handleCreate`, by Enter or the button, up to its request.
unfoldable pub handle_create : Menu → Menu
handle_create s = if is_empty (trim s.new_name) then s else record s {
  creating = true;
  in_flight = s.in_flight + 1;
  requests = trim s.new_name ∷ s.requests;
}

-- The rest of it.
unfoldable pub created : Outcome ℕ → Menu → Menu
created (ok tenant) s = record s {
  refreshed = s.refreshed + 1;
  selected = tenant ∷ s.selected;
  open_now = false;
  new_name = [];
  creating = false;
}
created (throw e) s = record s { alerts = s.alerts + 1; creating = false }

unfoldable pub create_answered : Outcome ℕ → Menu → Menu
unfolding created
create_answered r s =
    if s.in_flight == 0 then s else created r (record s { in_flight = s.in_flight - 1 })

pub data Event : Type 0 where
  pressed escaped clicked_outside form_pressed submitted : Event
  picked : ℕ → Event
  typed : Text → Event
  answered : Outcome ℕ → Event

unfoldable pub step : Event → Menu → Menu
unfolding handle_create create_answered
step pressed s = record s { open_now = not s.open_now }
step escaped s = record s { open_now = false }
step clicked_outside s = record s { open_now = false }
step form_pressed s = if s.open_now then record s { creating = true } else s
step submitted s = if has_form s then handle_create s else s
step (picked tenant) s =
    if s.open_now then record s { open_now = false; selected = tenant ∷ s.selected } else s
step (typed name) s = if has_form s then record s { new_name = name } else s
step (answered r) s = create_answered r s

unfoldable pub run : List Event → Menu → Menu
run [] s = s
run (e ∷ es) s = run es (step e s)
