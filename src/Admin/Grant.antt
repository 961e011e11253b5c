-- ===== src/Admin/Grant.antt =====
-- `GrantPlanModal` of frontend/src/pages/AdminPage.tsx, and the state of `AgentsTab` that opens it.
use agentleh_app.Base.{
  ℕ, ◌+◌, Bool, true, false, List, [], ◌∷◌, Option, none, some, Text, codes, is_empty,
  if◌then◌else◌,
}
use agentleh_app.Js.{Outcome, ok, throw, Error}

-- What `adminGrantPlan` is given.
pub record Grant : Type 0 where
  pub tenant_id : ℕ
  pub plan_id : Text
  pub duration_days : ℕ

pub record GrantModal : Type 0 where
  pub tenant_id : ℕ
  pub plan_id : Text
  pub duration_days : ℕ
  pub submitting : Bool
  pub shown_error : Option Error

pub record Granting : Type 0 where
  pub modal : Option GrantModal  -- there while `grantTenantId` is set
  pub grants : List Grant  -- the latest first
  pub reloads : ℕ  -- calls of `onGranted` of the page

-- `plans[0]?.plan_id || 'minimal'`
abbrev pub first_plan : List Text → Text
first_plan [] = codes "minimal"
first_plan (p ∷ ps) = if is_empty p then codes "minimal" else p

-- The item of a row with a workspace, or nothing.
unfoldable pub open_grant : List Text → Option ℕ → Granting → Granting
open_grant plans none s = s
open_grant plans (some tenant) s = record s {
  modal = some (record {
    tenant_id = tenant;
    plan_id = first_plan plans;
    duration_days = 30;
    submitting = false;
    shown_error = none;
  });
}

-- `handleSubmit` by the button, up to its request.
unfoldable pub handle_submit : Granting → Granting
handle_submit s = elim s.modal [
  | none ↦ s
  | some m ↦ if m.submitting then s else record s {
    modal = some (record m { submitting = true; shown_error = none });
    grants =
        record { tenant_id = m.tenant_id; plan_id = m.plan_id; duration_days = m.duration_days }
        ∷ s.grants;
  }
]

-- The rest of it; a success closes the modal and reloads the page.
unfoldable pub granted : Outcome (Unit {0}) → Granting → Granting
granted (ok u) s = record s { modal = none; reloads = s.reloads + 1 }
granted (throw e) s = record s {
  modal = elim s.modal [
    | none ↦ none
    | some m ↦ some (record m { submitting = false; shown_error = some e })
  ];
}
