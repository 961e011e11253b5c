-- ===== src/App/Laws.antt =====
-- The routes of the app read back, the workspace that a user lands in, and who sees which page.
use agentleh_app.Base.{
  ℕ, zero, suc, true, false, [], ◌∷◌, Option, none, some, Text, codes, decimal, decimal-cons,
  span_digits-IsDigits, decimal-IsDigits, digits_value, digits_value-decimal, starts_with, any,
  ◌==◌, if◌then◌else◌, ◌≡◌, refl, sym, ◌∙◌, ap, arith, ◌⊎◌, ◌<◌,
}
use agentleh_app.Js.{ok}
use agentleh_app.App.Route.{
  dashboard, admin, root, tenant, after_prefix, tenant_route, parse_route, tenant_path,
}
use agentleh_app.App.Shell.{
  complete, AppUser, App, truthy_id, is_foreign, or_id, redirect, resolve_default, resolve_tenant,
  load_user, select_tenant, view, admin_page, tenant_page,
}

tenant_route-digits :
    (s r : Text) (t d : ℕ)
    → s ≡ d ∷ r
    → digits_value 0 s ≡ t
    → tenant_route (s, []) ≡ tenant t dashboard
unfolding tenant_route starts_with
tenant_route-digits s r t d e v =
    rw e (ap (λ (n : ℕ). tenant n dashboard) (ap (λ (x : Text). digits_value 0 x) (sym e) ∙ v))

-- The address of a workspace is parsed as that workspace's dashboard.
parse_route-tenant_path : (t : ℕ) → parse_route (tenant_path t) ≡ tenant t dashboard
unfolding parse_route tenant_path codes starts_with after_prefix
parse_route-tenant_path t =
    let (d, r, e) = decimal-cons t in
    rw (span_digits-IsDigits (decimal t) (decimal-IsDigits t))
      (tenant_route-digits (decimal t) r t d e (digits_value-decimal t))

inner_view-tenant :
    (t : ℕ) (s : App)
    → 0 < t
    → s.loading ≡ false
    → s.session ≡ true
    → s.route ≡ tenant t dashboard
    → view s ≡ tenant_page t dashboard
unfolding view
inner_view-tenant (suc t) s h l k e = rw (view, l, e, k) refl
inner_view-tenant zero s h l k e = absurd (omega arith)

-- After a workspace is picked by a user with a session, the active workspace, the URL and the page that is shown agree on it.
select_tenant-view :
    (t : ℕ) (s : App)
    → 0 < t
    → s.loading ≡ false
    → s.session ≡ true
    → ((select_tenant t s).active_tenant ≡ some t)
      × (parse_route (select_tenant t s).pathname ≡ tenant t dashboard)
      × (view (select_tenant t s) ≡ tenant_page t dashboard)
unfolding select_tenant
select_tenant-view t s h l k = (
  refl,
  parse_route-tenant_path t,
  inner_view-tenant t (select_tenant t s) h l k (parse_route-tenant_path t),
)

-- The administration is shown only to a loaded user with a session who is a superadmin, at an admin route.
view-admin_page :
    (s : App)
    → view s ≡ admin_page
    → (s.session ≡ true)
      × (s.loading ≡ false)
      × (s.route ≡ admin)
      × ((me : AppUser) × (s.user ≡ some me) × (me.superadmin ≡ true))
unfolding view
view-admin_page s h = ground arith

module _ (me : AppUser) (s : App) (d : ℕ) where
  load_user-root :
      (active : Option ℕ)
      → me.onboarding_status ≡ complete
      → me.default_tenant_id ≡ some (suc d)
      → parse_route s.pathname ≡ root
      → ((load_user active (ok me) s).active_tenant
          ≡ (if is_foreign active me then some (suc d) else s.active_tenant))
        × ((load_user active (ok me) s).route ≡ parse_route (tenant_path (or_id active (suc d))))
  unfolding load_user resolve_tenant resolve_default redirect truthy_id
  load_user-root active c e r = rw r (ground arith)

  -- A user who is fully onboarded, with a default workspace that is in the list of theirs, and who arrives at the root
  -- lands in a workspace of theirs, which is then the active one, where the remembered workspace is theirs or there is
  -- none, and has not changed since the rendering that `loadUser` belongs to.
  pub load_user-lands :
      (active : Option ℕ)
      → s.active_tenant ≡ active
      → me.onboarding_status ≡ complete
      → me.default_tenant_id ≡ some (suc d)
      → any (λ t. t == suc d) me.tenants ≡ true
      → parse_route s.pathname ≡ root
      → (is_foreign active me ≡ false) ⊎ (active ≡ none)
      → (t : ℕ) × ((load_user active (ok me) s).active_tenant ≡ some t)
        × ((load_user active (ok me) s).route ≡ tenant t dashboard)
        × (any (λ u. u == t) me.tenants ≡ true)
  unfolding is_foreign truthy_id or_id
  load_user-lands none q c e m r h =
      let (active, route) = load_user-root none c e r in
      (suc d, active, route ∙ parse_route-tenant_path (suc d), m)
  load_user-lands (some (suc a)) q c e m r h =
      let (active, route) = load_user-root (some (suc a)) c e r in
      (suc a, ground arith, route ∙ parse_route-tenant_path (suc a), ground arith)
  load_user-lands (some zero) q c e m r h = absurd (ground arith)

  -- Where the remembered workspace is not one of the user's, a user who is fully onboarded and arrives at the root is
  -- sent to that foreign workspace all the same, while the active one is set to the default.
  load_user-foreign :
      (a : ℕ)
      → me.onboarding_status ≡ complete
      → me.default_tenant_id ≡ some (suc d)
      → parse_route s.pathname ≡ root
      → any (λ t. t == suc a) me.tenants ≡ false
      → ((load_user (some (suc a)) (ok me) s).active_tenant ≡ some (suc d))
        × ((load_user (some (suc a)) (ok me) s).route ≡ tenant (suc a) dashboard)
  unfolding is_foreign truthy_id or_id
  load_user-foreign a c e r f =
      let (active, route) = load_user-root (some (suc a)) c e r in
      (ground arith, route ∙ parse_route-tenant_path (suc a))
