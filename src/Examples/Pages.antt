-- ===== src/Examples/Pages.antt =====
-- Runs of the app's shell, frontend/src/App.tsx, and of the coupon page, frontend/src/pages/RedeemCouponPage.tsx.
use agentleh_app.App.Shell.{truthy_id}
use agentleh_app.App.Route.{after_prefix}
use agentleh_app.Base.{
  starts_with, ℕ, true, false, List, [], ◌∷◌, inl, none, some, codes, any, ◌==◌, ◌≡◌, refl, arith,
  text_eq, trim, length, ◌≤◌,
}
use agentleh_app.Js.{ok}
use agentleh_app.App.Route.{dashboard, admin, root, tenant, parse_route}
use agentleh_app.App.Shell.{complete, AppUser, App, is_foreign, load_user, view, admin_page}
use agentleh_app.App.Laws.{load_user-lands}
use agentleh_app.Coupon.Page.{Preview, Event, typed, waited, previewed, clicked, run, opened}
use agentleh_app.Coupon.Laws.{IsSound, run-IsSound}

abbrev member : AppUser
member = record {
  onboarding_status = complete;
  superadmin = true;
  tenants = 3 ∷ 4 ∷ [];
  default_tenant_id = some 3;
}

abbrev at_root : App
at_root = record {
  session = true;
  user = none;
  loading = false;
  pathname = codes "/";
  route = root;
  active_tenant = some 4;
  stored_tenant = some (codes "4");
}

abbrev at_admin : App
at_admin = record at_root { user = some member; pathname = codes "/admin"; route = admin }

admin_is_shown : view at_admin ≡ admin_page
unfolding view
admin_is_shown = refl

root_is_root : parse_route (codes "/") ≡ root
unfolding parse_route starts_with codes after_prefix
root_is_root = refl

four_is_own : is_foreign (some 4) member ≡ false
unfolding is_foreign truthy_id any
four_is_own = refl

three_is_listed : any (λ t. t == 3) member.tenants ≡ true
unfolding any
three_is_listed = refl

load_user-lands_example :
    (t : ℕ) × ((load_user (some 4) (ok member) at_root).active_tenant ≡ some t)
    × ((load_user (some 4) (ok member) at_root).route ≡ tenant t dashboard)
    × (any (λ u. u == t) member.tenants ≡ true)
load_user-lands_example =
    load_user-lands member at_root 2 (some 4) refl refl refl three_is_listed root_is_root
      (inl four_is_own)

nine_is_foreign : any (λ t. t == 9) member.tenants ≡ false
unfolding any
nine_is_foreign = refl

abbrev offer : Preview
offer = record { code = codes "ABCDEF"; already_redeemed_by_user = false }

abbrev redeeming_events : List Event
redeeming_events =
    typed (codes "ABCDEF") ∷ waited ∷ previewed (codes "ABCDEF") (ok offer) ∷ clicked ∷ []

run-IsSound_example : IsSound (run redeeming_events opened)
run-IsSound_example = run-IsSound redeeming_events

codes_differ : text_eq (codes "ABCDEG") opened.code ≡ false
unfolding opened text_eq codes
codes_differ = refl

long_enough : 6 ≤ length (trim (codes "ABCDEG"))
unfolding trim codes
long_enough = omega arith
