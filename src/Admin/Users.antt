-- ===== src/Admin/Users.antt =====
-- The users and the redemptions of a coupon in frontend/src/pages/AdminPage.tsx: `UsersTab`, `UserRowActionsMenu` and
-- `RedemptionsModal`. The formats of dates are parameters.
use agentleh_app.Base.{
  ℕ, Bool, true, false, List, [], ◌∷◌, ◌++◌, Option, none, some, Text, codes, text_eq, is_empty,
  map, decimal, if◌then◌else◌, ◌≡◌, refl, Bool-cases, inl, inr,
}
use agentleh_app.Js.{Outcome, ok, throw}
use agentleh_app.Admin.Page.{new_role}
use agentleh_app.Admin.Plans.{Tone, role_tone, onboarding_tone}

pub record UserRow : Type 0 where
  pub email : Text
  pub full_name : Text
  pub role : Text
  pub onboarding_status : Text
  pub agent_count : ℕ
  pub created_at : Text

pub record UserLine : Type 0 where
  pub name : Text
  pub second_line : Option Text
  pub role : Text × Tone
  pub status : Text × Tone
  pub agent_count : Text
  pub joined : Text

-- The item of the menu of a row, and whether it is in the colour of danger.
unfoldable pub promote_item : Text → Text × Bool
promote_item role =
    if text_eq role (codes "superadmin")
    then (codes "Demote to user", true)
    else (codes "Promote to superadmin", false)

-- The item says what `handlePromote` asks for, and is in the colour of danger where it takes the rights away.
promote_item-new_role :
    (role : Text) → (promote_item role).1 ≡ text_eq (new_role role) (codes "user")
unfolding promote_item new_role codes text_eq
promote_item-new_role role = elim (Bool-cases (text_eq role (codes "superadmin"))) [
  | inl e ↦ rw e refl
  | inr e ↦ rw e refl
]

pub record Redemption : Type 0 where
  pub user_email : Text
  pub tenant_name : Text
  pub period_start : Text
  pub period_end : Text
  pub redeemed_at : Text

pub record Modal : Type 0 where
  pub rows : List Redemption
  pub loading : Bool

abbrev pub opened : Modal
opened = record { rows = []; loading = true }

-- `.then(...).finally(...)`
unfoldable pub rows_arrived : Outcome (List Redemption) → Modal → Modal
rows_arrived (ok rs) m = record { rows = rs; loading = false }
rows_arrived (throw e) m = record m { loading = false }

pub data View : Type 0 where
  loading_view no_redemptions : View
  table : List (List Text) → View

module _ (fmt_date : Text → Text) (fmt_day : Text → Text) where
  unfoldable pub user_line : UserRow → UserLine
  user_line u = record {
    name = if is_empty u.full_name then u.email else u.full_name;
    second_line = if is_empty u.full_name then none else some u.email;
    role = (u.role, role_tone u.role);
    status = (u.onboarding_status, onboarding_tone u.onboarding_status);
    agent_count = decimal u.agent_count;
    joined = if is_empty u.created_at then codes "—" else fmt_date u.created_at;
  }

  unfoldable pub users_tab : List UserRow → List UserLine
  users_tab us = map user_line us

  unfoldable pub redemption_row : Redemption → List Text
  redemption_row r =
      r.user_email
      ∷ r.tenant_name
      ∷ (fmt_day r.period_start ++ codes " → " ++ fmt_day r.period_end)
      ∷ fmt_date r.redeemed_at
      ∷ []

  unfoldable pub view : Modal → View
  view m = if m.loading then loading_view else rows_view m.rows
    where
      rows_view : List Redemption → View
      rows_view [] = no_redemptions
      rows_view (r ∷ rs) = table (map redemption_row (r ∷ rs))
