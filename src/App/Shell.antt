-- ===== src/App/Shell.antt =====
-- The state of `App` in frontend/src/App.tsx: `loadUser`, `navigate`, `selectTenant`, the session's
-- changes, and the page that the state shows. State updates are applied at once.
use agentleh_app.Base.{
  ℕ, zero, suc, Bool, true, false, not, ◌&&◌, List, Option, none, some, Text, codes, text_eq,
  decimal, any, ◌==◌, if◌then◌else◌,
}
use agentleh_app.Js.{Outcome, ok, throw}
use agentleh_app.App.Route.{
  Route, Subpage, invite_accept, admin, root, tenant, parse_route, tenant_path,
}

pub data Status : Type 0 where
  pending plan_active complete : Status

-- What the app reads of `AppUser`; a `tenants` that is absent is empty.
pub record AppUser : Type 0 where
  pub onboarding_status : Status
  pub superadmin : Bool
  pub tenants : List ℕ
  pub default_tenant_id : Option ℕ

pub record App : Type 0 where
  pub session : Bool
  pub user : Option AppUser
  pub loading : Bool
  pub pathname : Text  -- `window.location.pathname`
  pub route : Route
  pub active_tenant : Option ℕ  -- `activeTenantId`
  pub stored_tenant : Option Text  -- localStorage's `agentleh.activeTenantId`

-- An id is truthy when it is not 0.
unfoldable pub truthy_id : Option ℕ → Option ℕ
truthy_id none = none
truthy_id (some zero) = none
truthy_id (some (suc n)) = some (suc n)

-- `!activeTenantId || !me.tenants?.some((t) => t.id === activeTenantId)`
unfoldable pub is_foreign : Option ℕ → AppUser → Bool
is_foreign active me = elim (truthy_id active) [
  | none ↦ true
  | some a ↦ not (any (λ t. t == a) me.tenants)
]

-- `activeTenantId || me.default_tenant_id`
unfoldable pub or_id : Option ℕ → ℕ → ℕ
or_id active fallback = elim (truthy_id active) [ none ↦ fallback | some a ↦ a ]

is_complete : Status → Bool
is_complete complete = true
is_complete _ = false

is_root : Route → Bool
is_root root = true
is_root _ = false

-- The redirect of a user who is fully onboarded, from the root to the workspace.
unfoldable pub redirect : Option ℕ → ℕ → AppUser → Route → App → App
unfolding is_complete is_root
redirect active fallback me current s =
    if is_root current && is_complete me.onboarding_status
    then (let path = tenant_path (or_id active fallback) in
        record s { pathname = path; route = parse_route path })
    else s

-- The branch of `loadUser` for a user with a default workspace. `active` is the `activeTenantId` of
-- the render that `loadUser` belongs to.
unfoldable pub resolve_default : Option ℕ → AppUser → Route → App → App
resolve_default active me current s = elim (truthy_id me.default_tenant_id) [
  | none ↦ s
  | some fallback ↦
      redirect active fallback me current
        (if is_foreign active me then record s { active_tenant = some fallback } else s)
]

-- The URL wins where it names a workspace; an id of 0 is falsy.
unfoldable pub resolve_tenant : Option ℕ → AppUser → Route → App → App
resolve_tenant active me (tenant (suc n) subpage) s = record s { active_tenant = some (suc n) }
resolve_tenant active me current s = resolve_default active me current s

-- `loadUser`, with the outcome of `getMe`.
unfoldable pub load_user : Option ℕ → Outcome AppUser → App → App
load_user active (ok me) s =
    record (resolve_tenant active me (parse_route s.pathname) (record s { user = some me })) {
      loading = false;
    }
load_user active (throw e) s = record s { user = none; loading = false }

-- `navigate`, and the listener of `popstate`.
unfoldable pub navigate : Text → App → App
navigate path s = record s { pathname = path; route = parse_route path }

unfoldable pub select_tenant : ℕ → App → App
unfolding navigate
select_tenant tenant_id s =
    navigate (tenant_path tenant_id)
      (record s { active_tenant = some tenant_id; stored_tenant = some (decimal tenant_id) })

-- The listener of the session; with a session `loadUser` follows.
unfoldable pub on_session : Bool → App → App
on_session true s = record s { session = true }
on_session false s = record s { session = false; user = none; loading = false }

pub data View : Type 0 where
  spinner invite_page login signup admin_page forbidden redeem_coupon onboarding no_workspace
        blank :
      View
  tenant_page : ℕ → Subpage → View

-- `user?.onboarding_status || 'pending'`
unfoldable pub status_of : Option AppUser → Status
status_of none = pending
status_of (some me) = me.onboarding_status

unfoldable pub is_superadmin : Option AppUser → Bool
is_superadmin none = false
is_superadmin (some me) = me.superadmin

unfoldable pub default_of : Option AppUser → Option ℕ
unfolding truthy_id
default_of none = none
default_of (some me) = truthy_id me.default_tenant_id

unfoldable pub root_view : Option AppUser → View
unfolding status_of default_of
root_view user = elim (status_of user) [
  | pending ↦ redeem_coupon
  | plan_active ↦ onboarding
  | complete ↦ elim (default_of user) [ none ↦ no_workspace | some t ↦ blank ]
]

-- What stands inside the layout.
unfoldable pub inner_view : Route → Option AppUser → View
unfolding root_view is_superadmin
inner_view admin user = if is_superadmin user then admin_page else forbidden
inner_view (tenant zero subpage) user = blank
inner_view (tenant (suc n) subpage) user = tenant_page (suc n) subpage
inner_view root user = root_view user
inner_view invite_accept user = invite_page

unfoldable pub view : App → View
unfolding inner_view
view s = if s.loading then spinner else elim s.route [
  | invite_accept ↦ invite_page
  | route ↦
      if s.session
      then inner_view route s.user
      else if text_eq s.pathname (codes "/signup")
      then signup
      else login
]
