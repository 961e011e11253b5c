-- ===== src/Workspace/Page/Tabs.antt =====
-- The addresses of the tabs of a workspace.
use agentleh_app.Base.{
  ℕ, ◌∷◌, ◌++◌, Text, codes, starts_with, span_digits, digits_value, decimal, decimal-cons,
  decimal-IsDigits, digits_value-decimal, span_digits-append, span_digits-IsDigits, is_digit, ◌≡◌,
  ◌∙◌, sym, ap, refl, append-nil,
}
use agentleh_app.App.Route.{
  Subpage, dashboard, members, settings, usage, audit, integrations, tenant, parse_route,
  parse_subpage, tenant_route, tenant_path, after_prefix,
}
use agentleh_app.Workspace.Page.{tab_suffix, tab_path}

parse_subpage-tab_suffix : (tab : Subpage) → parse_subpage (tab_suffix tab) ≡ tab
unfolding parse_subpage tab_suffix starts_with codes
parse_subpage-tab_suffix dashboard = refl
parse_subpage-tab_suffix members = refl
parse_subpage-tab_suffix settings = refl
parse_subpage-tab_suffix usage = refl
parse_subpage-tab_suffix audit = refl
parse_subpage-tab_suffix integrations = refl

tenant_route-digits :
    (s rest r : Text) (t d : ℕ)
    → s ≡ d ∷ r
    → digits_value 0 s ≡ t
    → tenant_route (s, rest) ≡ tenant t (parse_subpage rest)
unfolding tenant_route
tenant_route-digits s rest r t d e v = rw e (
    ap (λ (n : ℕ). tenant n (parse_subpage rest)) (ap (λ (x : Text). digits_value 0 x) (sym e) ∙ v))

span_digits-tab_suffix :
    (t : ℕ) (tab : Subpage)
    → span_digits (decimal t ++ tab_suffix tab) ≡ (decimal t, tab_suffix tab)
unfolding tab_suffix codes is_digit
span_digits-tab_suffix t dashboard =
    rw append-nil (span_digits-IsDigits (decimal t) (decimal-IsDigits t))
span_digits-tab_suffix t members = span_digits-append (decimal t) 47 _ (decimal-IsDigits t) refl
span_digits-tab_suffix t settings = span_digits-append (decimal t) 47 _ (decimal-IsDigits t) refl
span_digits-tab_suffix t usage = span_digits-append (decimal t) 47 _ (decimal-IsDigits t) refl
span_digits-tab_suffix t audit = span_digits-append (decimal t) 47 _ (decimal-IsDigits t) refl
span_digits-tab_suffix t integrations =
    span_digits-append (decimal t) 47 _ (decimal-IsDigits t) refl

-- The address of each tab of each workspace is read back as that workspace and that tab.
pub parse_route-tab_path : (t : ℕ) (tab : Subpage) → parse_route (tab_path t tab) ≡ tenant t tab
unfolding parse_route tab_path tenant_path codes starts_with after_prefix
parse_route-tab_path t tab =
    let (d, r, e) = decimal-cons t in
    rw (span_digits-tab_suffix t tab) (
      tenant_route-digits (decimal t) (tab_suffix tab) r t d e (digits_value-decimal t)
      ∙ ap (tenant t) (parse_subpage-tab_suffix tab))
