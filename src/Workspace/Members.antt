-- ===== src/Workspace/Members.antt =====
-- The members tab of frontend/src/pages/TenantPage.tsx. An event that the tab does not offer changes nothing.
pub mod Changes
use agentleh_app.Base.{
  ℕ, ◌+◌, Bool, true, false, not, ◌&&◌, ◌||◌, List, [], ◌∷◌, Option, none, some, Text, is_empty,
  trim, any, keep, ◌==◌, if◌then◌else◌,
}
use agentleh_app.Js.{Outcome, ok, throw, Error}

pub data GivenRole : Type 0 where
  admin member : GivenRole

-- The props of the tab, with the ids of the members and of the pending invites.
pub record Props : Type 0 where
  pub members : List ℕ
  pub pending_invites : List ℕ
  pub is_admin_or_owner : Bool
  pub is_owner : Bool
  pub owner_user_id : ℕ

pub data Request : Type 0 where
  create_invite : Text → GivenRole → Request
  revoke_invite : ℕ → Request
  remove_member : ℕ → Request
  change_role : ℕ → GivenRole → Request

-- `inviteStatus`
pub data Status : Type 0 where
  idle sending sent link_only : Status
  failed : Error → Status

-- What `createInvite` resolves with.
pub record Invited : Type 0 where
  pub accept_url : Text
  pub email_sent : Bool

pub record Tab : Type 0 where
  pub show_invite : Bool
  pub invite_email : Text
  pub invite_role : GivenRole
  pub invite_status : Status
  pub invite_link : Option Text
  pub requests : List Request  -- the latest first
  pub changed : ℕ  -- calls of `onChanged`

abbrev pub is_sending : Status → Bool
is_sending sending = true
is_sending _ = false

abbrev pub asking : Request → Tab → Tab
asking r s = record s { requests = r ∷ s.requests }

unfoldable pub opened : Tab
opened = record {
  show_invite = false;
  invite_email = [];
  invite_role = member;
  invite_status = idle;
  invite_link = none;
  requests = [];
  changed = 0;
}

-- `handleInvite`, up to its request.
unfoldable pub handle_invite : Tab → Tab
handle_invite s =
    if is_empty (trim s.invite_email)
    then s
    else asking (create_invite (trim s.invite_email) s.invite_role)
        (record s { invite_status = sending })

unfoldable pub invite_answered : Outcome Invited → Tab → Tab
invite_answered (ok i) s = record s {
  invite_link = some i.accept_url;
  invite_status = if i.email_sent then sent else link_only;
  invite_email = [];
  changed = s.changed + 1;
}
invite_answered (throw e) s = record s { invite_status = failed e }

-- `handleRevoke`, `handleRemove` and `handleChangeRole`, of which two ask for an answer first.
unfoldable pub handle_revoke : ℕ → Bool → Tab → Tab
handle_revoke invite agreed s = if agreed then asking (revoke_invite invite) s else s

unfoldable pub handle_remove : ℕ → Bool → Tab → Tab
handle_remove user agreed s = if agreed then asking (remove_member user) s else s

unfoldable pub handle_change_role : ℕ → GivenRole → Tab → Tab
handle_change_role user role s = asking (change_role user role) s

unfoldable pub change_answered : Outcome (Unit {0}) → Tab → Tab
change_answered (ok u) s = record s { changed = s.changed + 1 }
change_answered (throw e) s = s

pub data Event : Type 0 where
  toggled invite_pressed : Event
  typed_email : Text → Event
  picked_role : GivenRole → Event
  revoke_pressed remove_pressed : ℕ → Bool → Event
  role_changed : ℕ → GivenRole → Event
  invited : Outcome Invited → Event
  answered : Outcome (Unit {0}) → Event

module _ (p : Props) where
  -- Whether the form is there, and the controls of a member and of an invite.
  abbrev pub has_form : Tab → Bool
  has_form s = s.show_invite && p.is_admin_or_owner

  unfoldable pub has_controls : ℕ → Bool
  has_controls user =
      any (λ m. m == user) p.members && (p.is_owner && not (user == p.owner_user_id))

  unfoldable pub has_revoke : ℕ → Bool
  has_revoke invite = any (λ i. i == invite) p.pending_invites && p.is_admin_or_owner

  unfoldable pub step : Event → Tab → Tab
  unfolding handle_invite handle_revoke handle_remove handle_change_role has_controls has_revoke
  step toggled s = if p.is_admin_or_owner then record s { show_invite = not s.show_invite } else s
  step invite_pressed s =
      if has_form s && not (is_sending s.invite_status) then handle_invite s else s
  step (typed_email t) s = if has_form s then record s { invite_email = t } else s
  step (picked_role r) s = if has_form s then record s { invite_role = r } else s
  step (revoke_pressed i agreed) s = if has_revoke i then handle_revoke i agreed s else s
  step (remove_pressed u agreed) s = if has_controls u then handle_remove u agreed s else s
  step (role_changed u r) s = if has_controls u then handle_change_role u r s else s
  step (invited r) s = if is_sending s.invite_status then invite_answered r s else s
  step (answered r) s = change_answered r s
