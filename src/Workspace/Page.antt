-- ===== src/Workspace/Page.antt =====
-- The page of a workspace, frontend/src/pages/TenantPage.tsx: its loading, its tabs and what it shows. The page stays
-- mounted when another workspace is picked. State updates are applied at once.
pub mod Tabs
pub mod Loads
pub mod Google
use agentleh_app.Base.{
  ℕ, ◌+◌, Bool, true, false, not, ◌||◌, List, [], ◌∷◌, ◌++◌, Option, none, some, Text, codes, ◌==◌,
  if◌then◌else◌,
}
use agentleh_app.Js.{Js, Outcome, ok, throw, Error}
use agentleh_app.App.Route.{
  Subpage, dashboard, members, settings, usage, audit, integrations, tenant_path,
}

-- `TenantRole`
pub data Role : Type 0 where
  owner admin member : Role

-- What the page reads of `TenantDetail`: the workspace that it is of, and the role in it.
pub record Detail : Type 0 where
  pub tenant_id : ℕ
  pub role : Role

-- The answers of `getTenantDetail` and `getTenantDashboard` together: a failure of the latter is no answer.
pub record Loaded : Type 0 where
  pub detail : Detail
  pub dashboard_data : Option Js

-- A `reload` in flight.
pub record Reload : Type 0 where
  pub serial : ℕ
  pub tenant_id : ℕ
  pub silent : Bool

pub record Page : Type 0 where
  pub tenant_id : ℕ
  pub subpage : Subpage
  pub detail : Option Detail
  pub dashboard_data : Option Js
  pub loading : Bool
  pub shown_error : Option Error
  pub in_flight : List Reload
  pub next_serial : ℕ

-- `reload`, up to its requests.
unfoldable pub reload : Bool → Page → Page
reload silent s = record s {
  loading = not silent || s.loading;
  shown_error = none;
  in_flight =
      record { serial = s.next_serial; tenant_id = s.tenant_id; silent = silent } ∷ s.in_flight;
  next_serial = s.next_serial + 1;
}

-- The rest of it.
unfoldable pub reload_answered : Reload → Outcome Loaded → Page → Page
reload_answered q r s =
    let done = record s { loading = if q.silent then s.loading else false } in
    elim r [
      | ok l ↦ record done { detail = some l.detail; dashboard_data = l.dashboard_data }
      | throw e ↦ record done { shown_error = some e }
    ]

-- Another address of the page: the effect on the workspace's id reloads.
unfoldable pub show_tenant : ℕ → Subpage → Page → Page
unfolding reload
show_tenant tenant_id subpage s =
    let there = record s { tenant_id = tenant_id; subpage = subpage } in
    if tenant_id == s.tenant_id then there else reload false there

-- The first reload in flight of a serial number, and the others.
unfoldable pub take_reload : ℕ → List Reload → Option (Reload × List Reload)
take_reload n [] = none
take_reload n (q ∷ qs) =
    let rest : Option (Reload × List Reload) = elim (take_reload n qs) [
      | none ↦ none
      | some (p, ps) ↦ some (p, q ∷ ps)
    ] in
    if q.serial == n then some (q, qs) else rest

pub data Event : Type 0 where
  shown : ℕ → Subpage → Event
  changed : Event
  answered : ℕ → Outcome Loaded → Event

-- `changed` is a call of `reloadSilent` by a tab; an answer to no reload in flight is no event.
unfoldable pub step : Event → Page → Page
step (shown tenant_id subpage) s = show_tenant tenant_id subpage s
step changed s = reload true s
step (answered n r) s = elim (take_reload n s.in_flight) [
  | none ↦ s
  | some (q, qs) ↦ reload_answered q r (record s { in_flight = qs })
]

unfoldable pub run : List Event → Page → Page
run [] s = s
run (e ∷ es) s = run es (step e s)

unfoldable pub mounted : ℕ → Subpage → Page
unfolding reload
mounted tenant_id subpage = reload false (record {
  tenant_id = tenant_id;
  subpage = subpage;
  detail = none;
  dashboard_data = none;
  loading = true;
  shown_error = none;
  in_flight = [];
  next_serial = 0;
})

-- `isAdminOrOwner`
abbrev pub is_admin_or_owner : Role → Bool
is_admin_or_owner owner = true
is_admin_or_owner admin = true
is_admin_or_owner member = false

abbrev pub is_owner : Role → Bool
is_owner owner = true
is_owner _ = false

-- What is rendered. A panel has the id that its calls are made with, and what it was loaded as.
pub data View : Type 0 where
  loading_view nothing header_only : View
  error_view : Error → View
  panel : Subpage → ℕ → Detail → View

unfoldable pub tab_view : Page → Detail → View
tab_view s d = elim s.subpage [
  | audit ↦ if is_admin_or_owner d.role then panel audit s.tenant_id d else header_only
  | dashboard ↦ panel dashboard s.tenant_id d
  | members ↦ panel members s.tenant_id d
  | settings ↦ panel settings s.tenant_id d
  | usage ↦ panel usage s.tenant_id d
  | integrations ↦ panel integrations s.tenant_id d
]

unfoldable pub view : Page → View
unfolding tab_view
view s = if s.loading then loading_view else elim s.shown_error [
  | some e ↦ error_view e
  | none ↦ elim s.detail [ none ↦ nothing | some d ↦ tab_view s d ]
]

-- The address that `setTab` navigates to.
unfoldable pub tab_suffix : Subpage → Text
tab_suffix dashboard = []
tab_suffix members = codes "/members"
tab_suffix settings = codes "/settings"
tab_suffix usage = codes "/usage"
tab_suffix audit = codes "/audit"
tab_suffix integrations = codes "/integrations"

unfoldable pub tab_path : ℕ → Subpage → Text
unfolding tab_suffix
tab_path tenant_id tab = tenant_path tenant_id ++ tab_suffix tab
