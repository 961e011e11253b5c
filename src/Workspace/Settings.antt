-- ===== src/Workspace/Settings.antt =====
-- The settings tab of frontend/src/pages/TenantPage.tsx. An event that the tab does not offer changes nothing.
pub mod Requests
use agentleh_app.Base.{
  ℕ, ◌+◌, Bool, true, false, not, ◌&&◌, ◌||◌, List, [], ◌∷◌, Option, none, some, Text, text_eq, any,
  keep, find, ◌==◌, if◌then◌else◌,
}
use agentleh_app.Js.{Outcome, ok, throw, Error}

-- The props of the tab.
pub record Props : Type 0 where
  pub name : Text
  pub billing_email : Option Text
  pub owner_user_id : ℕ
  pub members : List ℕ  -- by their `user_id`
  pub is_owner : Bool

pub data Request : Type 0 where
  update_tenant : Text → Text → Request
  delete_tenant : Request
  transfer_owner : ℕ → Request

pub record Settings : Type 0 where
  pub name : Text
  pub billing_email : Text
  pub saving : Bool
  pub shown_error : Option Error
  pub requests : List Request  -- the latest first
  pub changed : ℕ  -- calls of `onChanged`
  pub deleted : ℕ  -- calls of `onDeleted`

-- `tenant.billing_email || ''`
abbrev pub text_or_empty : Option Text → Text
text_or_empty none = []
text_or_empty (some t) = t

-- `billingEmail === tenant.billing_email`
abbrev pub is_same : Text → Option Text → Bool
is_same t none = false
is_same t (some u) = text_eq t u

pub data Event : Type 0 where
  typed_name typed_email : Text → Event
  save_pressed : Event
  delete_pressed : Bool → Event  -- with the answer of the browser's dialog
  transfer_pressed : ℕ → Bool → Event
  saved transferred removed : Outcome (Unit {0}) → Event

abbrev pub asking : Request → Settings → Settings
asking r s = record s { requests = r ∷ s.requests }

module _ (p : Props) where
  unfoldable pub opened : Settings
  opened = record {
    name = p.name;
    billing_email = text_or_empty p.billing_email;
    saving = false;
    shown_error = none;
    requests = [];
    changed = 0;
    deleted = 0;
  }

  -- Whether the button to save is there and enabled.
  unfoldable pub can_save : Settings → Bool
  can_save s =
      p.is_owner
      && not (s.saving || (text_eq s.name p.name && is_same s.billing_email p.billing_email))

  -- `handleSave`, up to its request.
  unfoldable pub handle_save : Settings → Settings
  handle_save s =
      asking (update_tenant s.name s.billing_email) (record s { saving = true; shown_error = none })

  unfoldable pub other_members : List ℕ
  other_members = keep (λ m. not (m == p.owner_user_id)) p.members

  unfoldable pub handle_delete : Bool → Settings → Settings
  handle_delete agreed s = if agreed then asking delete_tenant s else s

  unfoldable pub handle_transfer : ℕ → Bool → Settings → Settings
  handle_transfer user agreed s = elim (find (λ m. m == user) p.members) [
    | none ↦ s
    | some m ↦ if agreed then asking (transfer_owner user) s else s
  ]

  unfoldable pub save_answered : Outcome (Unit {0}) → Settings → Settings
  save_answered (ok u) s = record s { saving = false; changed = s.changed + 1 }
  save_answered (throw e) s = record s { saving = false; shown_error = some e }

  unfoldable pub transfer_answered : Outcome (Unit {0}) → Settings → Settings
  transfer_answered (ok u) s = record s { changed = s.changed + 1 }
  transfer_answered (throw e) s = s

  unfoldable pub delete_answered : Outcome (Unit {0}) → Settings → Settings
  delete_answered (ok u) s = record s { deleted = s.deleted + 1 }
  delete_answered (throw e) s = s

  unfoldable pub step : Event → Settings → Settings
  unfolding handle_save can_save handle_delete handle_transfer other_members
  step (typed_name t) s = if p.is_owner then record s { name = t } else s
  step (typed_email t) s = if p.is_owner then record s { billing_email = t } else s
  step save_pressed s = if can_save s then handle_save s else s
  step (delete_pressed agreed) s = if p.is_owner then handle_delete agreed s else s
  step (transfer_pressed user agreed) s =
      if p.is_owner && any (λ m. m == user) other_members then handle_transfer user agreed s else s
  step (saved r) s = if s.saving then save_answered r s else s
  step (transferred r) s = transfer_answered r s
  step (removed r) s = delete_answered r s
