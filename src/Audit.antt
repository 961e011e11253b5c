-- ===== src/Audit.antt =====
-- The audit log, frontend/src/components/AuditTab.tsx: its loading, the rows that are expanded, and its labels. The Hebrew
-- words are parameters.
pub mod Rows
use agentleh_app.Base.{
  ℕ, ◌+◌, Bool, true, false, not, List, [], ◌∷◌, ◌++◌, Option, none, some, Text, codes, is_empty,
  text_eq, keep, any, decimal, ◌==◌, if◌then◌else◌,
}
use agentleh_app.Js.{Js, Outcome, ok, throw, Error}
use agentleh_app.Prefs.Lang.{Lang, Bilingual, translate}

-- What the tab reads of `AuditEvent`.
pub record AuditEvent : Type 0 where
  pub id : ℕ
  pub action : Text
  pub actor_user_id : Option ℕ
  pub actor_full_name : Option Text
  pub actor_email : Option Text

-- A run of the effect has a number; that of the latest one is not cancelled.
pub record AuditState : Type 0 where
  pub tenant_id : ℕ
  pub events : List AuditEvent
  pub loading : Bool
  pub shown_error : Option Error
  pub expanded : List ℕ
  pub latest : ℕ
  pub in_flight : List (ℕ × ℕ)  -- the run of a request, and the workspace that it is for

-- The effect on the workspace, which cancels the run before.
unfoldable pub load : AuditState → AuditState
load s = record s {
  loading = true;
  shown_error = none;
  latest = s.latest + 1;
  in_flight = (s.latest + 1, s.tenant_id) ∷ s.in_flight;
}

unfoldable pub show_tenant : ℕ → AuditState → AuditState
unfolding load
show_tenant t s = if t == s.tenant_id then s else load (record s { tenant_id = t })

unfoldable pub settled : Outcome (List AuditEvent) → AuditState → AuditState
settled (ok events) s = record s { events = events; loading = false }
settled (throw e) s = record s { shown_error = some e; loading = false }

-- The workspace that a run asked for.
unfoldable pub asked_of : ℕ → List (ℕ × ℕ) → Option ℕ
asked_of run [] = none
asked_of run ((r, t) ∷ rs) = if r == run then some t else asked_of run rs

-- The end of the request of a run; `fetch` is what a run's request is answered with.
unfoldable pub arrived : (ℕ → ℕ → Outcome (List AuditEvent)) → ℕ → AuditState → AuditState
unfolding settled
arrived fetch run s = elim (asked_of run s.in_flight) [
  | none ↦ s
  | some t ↦
      (let left = record s { in_flight = keep (λ q. not (q.0 == run)) s.in_flight } in
        if run == s.latest then settled (fetch run t) left else left)
]

unfoldable pub has : List ℕ → ℕ → Bool
has ids id = any (λ i. i == id) ids

-- `toggle`
unfoldable pub toggle : ℕ → List ℕ → List ℕ
unfolding has
toggle id ids = if has ids id then keep (λ i. not (i == id)) ids else id ∷ ids

unfoldable pub or_else : Option Text → Text → Text
or_else none b = b
or_else (some a) b = if is_empty a then b else a

-- `ActorLabel`
unfoldable pub actor_label : (Text → Text) → Lang → AuditEvent → Text
actor_label hebrew lang ev = elim ev.actor_user_id [
  | none ↦ translate lang (record { he = hebrew (codes "System"); en = codes "System" })
  | some id ↦ or_else ev.actor_full_name (or_else ev.actor_email (codes "#" ++ decimal id))
]

-- `ACTION_LABELS`
unfoldable pub action_labels : (Text → Text) → List (Text × Bilingual)
action_labels hebrew =
    entry (codes "tenant.create") (codes "Workspace created")
    ∷ entry (codes "tenant.rename") (codes "Workspace renamed")
    ∷ entry (codes "tenant.update") (codes "Workspace updated")
    ∷ entry (codes "tenant.delete") (codes "Workspace deleted")
    ∷ entry (codes "tenant.transfer_owner") (codes "Ownership transferred")
    ∷ entry (codes "member.invite") (codes "Invite sent")
    ∷ entry (codes "member.accept_invite") (codes "Invite accepted")
    ∷ entry (codes "member.change_role") (codes "Role changed")
    ∷ entry (codes "member.remove") (codes "Member removed")
    ∷ entry (codes "invite.revoke") (codes "Invite revoked")
    ∷ entry (codes "agent.create") (codes "Agent created")
    ∷ entry (codes "agent.delete") (codes "Agent deleted")
    ∷ entry (codes "subscription.redeem_coupon") (codes "Plan activated")
    ∷ entry (codes "subscription.admin_grant") (codes "Plan granted (admin)")
    ∷ []
  where
    entry : Text → Text → Text × Bilingual
    entry action english = (action, record { he = hebrew action; en = english })
