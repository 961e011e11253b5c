-- ===== src/Admin/Tenants.antt =====
-- `TenantsTab` of frontend/src/pages/AdminPage.tsx: the list of workspaces and its filter; `toLowerCase` is a parameter.
pub mod Filter
use agentleh_app.Base.{
  ℕ, Bool, true, false, not, ◌&&◌, ◌||◌, List, [], ◌∷◌, ◌++◌, Option, none, some, Text, is_empty,
  trim, keep, any, starts_with, ◌==◌, ◌≡◌, refl, arith, inl, inr, Bool-cases, if◌then◌else◌,
}
use agentleh_app.Js.{Outcome, ok, throw, Error}

pub record TenantRow : Type 0 where
  pub id : ℕ
  pub name : Option Text
  pub owner_email : Option Text
  pub slug : Option Text

pub record TenantList : Type 0 where
  pub rows : Option (List TenantRow)
  pub shown_error : Option Error
  pub filter : Text

-- `s.includes(q)`
unfoldable pub includes : Text → Text → Bool
includes [] q = starts_with [] q
includes (c ∷ s) q = starts_with (c ∷ s) q || includes s q

abbrev pub or_blank : Option Text → Text
or_blank none = []
or_blank (some t) = t

-- The end of the request, unless the tab was left.
unfoldable pub rows_arrived : Bool → Outcome (List TenantRow) → TenantList → TenantList
rows_arrived true r s = s
rows_arrived false (ok rows) s = record s { rows = some rows }
rows_arrived false (throw e) s = record s { shown_error = some e }

module _ (lower : Text → Text) where
  unfoldable pub row_matches : Text → TenantRow → Bool
  row_matches q r =
      includes (lower (or_blank r.name)) q
      || includes (lower (or_blank r.owner_email)) q
      || includes (lower (or_blank r.slug)) q

  unfoldable pub visible_rows : Text → List TenantRow → List TenantRow
  unfolding row_matches
  visible_rows filter rows =
      let q = lower (trim filter) in if is_empty q then rows else keep (row_matches q) rows
