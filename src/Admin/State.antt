-- ===== src/Admin/State.antt =====
-- The state of `AdminPage` in frontend/src/pages/AdminPage.tsx: the overview, the tab, the agent whose details are shown,
-- and the two modals, of which frontend/src/components/DeleteAgentModal.tsx keeps the text that is typed.
use agentleh_app.Base.{ℕ, Bool, true, false, List, ◌∷◌, Option, none, some, Text}
use agentleh_app.Js.{Js, Error}

pub data Tab : Type 0 where
  agents users plans coupons tenants stats : Tab

-- What the handlers read of `AdminAgentRow` and `AdminOverview`.
pub record AgentRow : Type 0 where
  pub agent_id : Text
  pub agent_name : Option Text
  pub tenant_id : Option ℕ
  pub model : Option Text

pub record Overview : Type 0 where
  pub agents : List AgentRow
  pub body : Js  -- the users and the plans

-- `deletingAgent` and `switchingModel`
pub record Target : Type 0 where
  pub agent_id : Text
  pub agent_name : Option Text
  pub tenant_id : ℕ

pub record Switching : Type 0 where
  pub agent_id : Text
  pub agent_name : Option Text
  pub from : Option Text
  pub to : Text

-- The calls of frontend/src/lib/api.ts.
pub data Call : Type 0 where
  get_overview : Call
  get_detail : Text → Call
  rotate_key : Text → Call
  delete_agent : ℕ → Text → Call
  set_model : Text → Text → Call
  set_role : ℕ → Text → Call

-- What a reload goes on with: `handleConfirmDeleteAgent`, `handleConfirmSwitchModel`, or nothing.
pub data Waiter : Type 0 where
  no_one deletion switch : Waiter

pub record Admin : Type 0 where
  pub loading : Bool
  pub overview : Option Overview
  pub shown_error : Option Error
  pub selected : Option Text  -- `selectedAgentId`
  pub detail : Option Js  -- `agentDetail`
  pub tab : Tab
  pub deleting : Option Target
  pub delete_in_progress : Bool
  pub delete_error : Option Error
  pub confirm_text : Text  -- of the modal for a deletion
  pub switching : Option Switching
  pub switch_in_progress : Bool
  pub switch_error : Option Error
  pub calls : List Call  -- the latest first
  pub pending : List (Call × Waiter)  -- those that are not answered

abbrev pub calling_for : Waiter → Call → Admin → Admin
calling_for w c s = record s { calls = c ∷ s.calls; pending = (c, w) ∷ s.pending }

abbrev pub calling : Call → Admin → Admin
calling c s = calling_for no_one c s

abbrev pub is_some {ℓ} : {A : Type ℓ} → Option A → Bool
is_some none = false
is_some (some a) = true
