-- ===== src/Workspace/Dashboard.antt =====
-- What the dashboard tab of frontend/src/pages/TenantPage.tsx shows: the plan, the agents, the totals, and the dialogs for
-- a coupon and for the chat. `(n / d).toFixed(k)` and the Hebrew words are parameters.
use agentleh_app.Base.{
  ℕ, ◌+◌, Bool, true, false, List, [], ◌∷◌, Option, none, some, Text, text_eq, map, or_text,
  if◌then◌else◌,
}
use agentleh_app.Format.{micros_to_usd}
use agentleh_app.Labels.{plan_label, status_label}
use agentleh_app.Prefs.Lang.{Bilingual}

pub record Agent : Type 0 where
  pub agent_id : Text
  pub agent_name : Text
  pub status : Text

pub record Subscription : Type 0 where
  pub plan_id : Text
  pub status : Text
  pub used_micros : ℕ
  pub base_allowance_micros : ℕ
  pub overage_used_micros : ℕ

pub record UsageTotals : Type 0 where
  pub llm_micros : Option ℕ
  pub search_micros : Option ℕ
  pub tts_micros : Option ℕ

pub record Dashboard : Type 0 where
  pub subscription : Option Subscription
  pub totals : Option UsageTotals
  pub agents : List Agent

-- The texts of the card of the plan.
pub record PlanCard : Type 0 where
  pub plan : Bilingual
  pub status : Bilingual
  pub used : Text
  pub allowance : Text
  pub overage : Text

pub record AgentLine : Type 0 where
  pub name : Text
  pub agent_id : Text
  pub status : Bilingual
  pub has_delete : Bool

-- The buttons that an admin or owner has.
pub data Offer : Type 0 where
  manage activate : Offer

pub data Create : Type 0 where
  new_agent activate_first : Create

pub record Shown : Type 0 where
  pub plan : Option PlanCard
  pub offer : Option Offer
  pub create : Option Create
  pub agents : List AgentLine
  pub totals : Option (List Text)

module _ (to_fixed : ℕ → ℕ → ℕ → Text) (hebrew : Text → Text) where
  unfoldable pub plan_card : Subscription → PlanCard
  plan_card s = record {
    plan = plan_label hebrew (some s.plan_id);
    status = status_label hebrew (some s.status);
    used = micros_to_usd to_fixed (some s.used_micros);
    allowance = micros_to_usd to_fixed (some s.base_allowance_micros);
    overage = micros_to_usd to_fixed (some s.overage_used_micros);
  }

  unfoldable pub agent_line : Bool → Agent → AgentLine
  agent_line is_admin_or_owner a = record {
    name = a.agent_name;
    agent_id = a.agent_id;
    status = status_label hebrew (some a.status);
    has_delete = is_admin_or_owner;
  }

  unfoldable pub total_texts : UsageTotals → List Text
  total_texts t =
      micros_to_usd to_fixed t.llm_micros
      ∷ micros_to_usd to_fixed t.search_micros
      ∷ micros_to_usd to_fixed t.tts_micros
      ∷ []

  abbrev has_plan : Option Subscription → Bool
  has_plan none = false
  has_plan (some s) = true

  unfoldable pub view : Bool → Dashboard → Shown
  view is_admin_or_owner d = record {
    plan = elim d.subscription [ none ↦ none | some s ↦ some (plan_card s) ];
    offer =
        if is_admin_or_owner
        then some (if has_plan d.subscription then manage else activate)
        else none;
    create =
        if is_admin_or_owner
        then some (if has_plan d.subscription then new_agent else activate_first)
        else none;
    agents = map (agent_line is_admin_or_owner) d.agents;
    totals = elim d.totals [ none ↦ none | some t ↦ some (total_texts t) ];
  }

-- The name in the modal for a deletion: `agents.find(...)?.agent_name || deletingAgentId`
unfoldable pub modal_name : Text → List Agent → Text
modal_name deleting [] = deleting
modal_name deleting (a ∷ agents) =
    let rest = modal_name deleting agents in
    if text_eq a.agent_id deleting then or_text a.agent_name deleting else rest

-- The dialogs: `showRedeem`, and `chatAgent`, of which there is one.
pub record Dialogs : Type 0 where
  pub show_redeem : Bool
  pub chat_agent : Option (Text × Text)
  pub changed : ℕ  -- calls of `onChanged`

pub data Event : Type 0 where
  redeem_pressed redeem_closed redeemed : Event
  chat_pressed : Agent → Event
  chat_closed : Event

unfoldable pub step : Event → Dialogs → Dialogs
step redeem_pressed s = record s { show_redeem = true }
step redeem_closed s = record s { show_redeem = false }
step redeemed s = record s { show_redeem = false; changed = s.changed + 1 }
step (chat_pressed a) s = record s { chat_agent = some (a.agent_id, a.agent_name) }
step chat_closed s = record s { chat_agent = none }

unfoldable pub run : List Event → Dialogs → Dialogs
run [] s = s
run (e ∷ es) s = run es (step e s)
