-- ===== src/App/Route.antt =====
-- `parseRoute` of frontend/src/App.tsx. Workspace ids stay below 2 ^ 53, where `parseInt` is exact.
use agentleh_app.Base.{
  ℕ, [], ◌∷◌, ◌++◌, Option, none, some, Text, codes, starts_with, span_digits, digits_value,
  decimal, ◌==◌, if◌then◌else◌,
}

pub data Subpage : Type 0 where
  dashboard members settings usage audit integrations : Subpage

pub data Route : Type 0 where
  invite_accept admin root : Route
  tenant : ℕ → Subpage → Route

-- The text behind a prefix.
unfoldable pub after_prefix : Text → Text → Option Text
after_prefix [] s = some s
after_prefix (d ∷ p) [] = none
after_prefix (d ∷ p) (c ∷ s) = if c == d then after_prefix p s else none

-- The optional group behind the digits: the first name that the rest begins with.
unfoldable pub parse_subpage : Text → Subpage
unfolding codes
parse_subpage rest =
    if starts_with rest (codes "/dashboard")
    then dashboard
    else if starts_with rest (codes "/members")
    then members
    else if starts_with rest (codes "/settings")
    then settings
    else if starts_with rest (codes "/usage")
    then usage
    else if starts_with rest (codes "/audit")
    then audit
    else if starts_with rest (codes "/integrations")
    then integrations
    else dashboard

-- The match of the digits and of what follows them.
unfoldable pub tenant_route : Text × Text → Route
unfolding parse_subpage
tenant_route ([], rest) = root
tenant_route (d ∷ digits, rest) = tenant (digits_value 0 (d ∷ digits)) (parse_subpage rest)

unfoldable pub parse_route : Text → Route
parse_route pathname =
    if starts_with pathname (codes "/invites/accept")
    then invite_accept
    else if starts_with pathname (codes "/admin")
    then admin
    else elim (after_prefix (codes "/tenants/") pathname) [
      | none ↦ root
      | some s ↦ tenant_route (span_digits s)
    ]

-- The address of a workspace, `/tenants/${tenantId}`.
unfoldable pub tenant_path : ℕ → Text
tenant_path tenant_id = codes "/tenants/" ++ decimal tenant_id
