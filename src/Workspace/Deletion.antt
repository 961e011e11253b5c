-- ===== src/Workspace/Deletion.antt =====
-- The deletion of an agent: the dashboard tab of frontend/src/pages/TenantPage.tsx, and the modal of
-- frontend/src/components/DeleteAgentModal.tsx, which wants the agent's id typed. An event that the page does not offer
-- changes nothing.
pub mod Permits
use agentleh_app.Base.{
  ℕ, ◌+◌, Bool, true, false, not, ◌&&◌, ◌||◌, List, [], ◌∷◌, Option, none, some, Text, is_empty,
  text_eq, if◌then◌else◌,
}
use agentleh_app.Js.{Outcome, ok, throw, Error}

pub record Deletion : Type 0 where
  pub deleting : Option Text  -- `deletingAgentId`
  pub in_progress : Bool
  pub shown_error : Option Error
  pub confirm_text : Text  -- of the modal, which is there while an agent is to be deleted
  pub requests : List Text  -- what `deleteAgent` was given, the latest first
  pub changed : ℕ  -- calls of `onChanged`

-- Whether the modal is there.
abbrev pub is_shown : Option Text → Bool
is_shown none = false
is_shown (some a) = not (is_empty a)

-- The button in the row of an agent, which the modal covers.
unfoldable pub ask_delete : Text → Deletion → Deletion
ask_delete agent s =
    if is_shown s.deleting
    then s
    else record s { deleting = some agent; shown_error = none; confirm_text = [] }

-- `onCancel`, by the backdrop or the button.
unfoldable pub cancel : Deletion → Deletion
cancel s =
    if s.in_progress || not (is_shown s.deleting)
    then s
    else record s { deleting = none; shown_error = none }

-- The input of the modal is disabled while a deletion goes on.
unfoldable pub type_confirmation : Text → Deletion → Deletion
type_confirmation text s =
    if s.in_progress || not (is_shown s.deleting) then s else record s { confirm_text = text }

-- `handleDeleteAgent`, up to its request, and the rest of it.
unfoldable pub handle_delete_agent : Deletion → Deletion
handle_delete_agent s = elim s.deleting [
  | none ↦ s
  | some a ↦
      if is_empty a
      then s
      else record s { in_progress = true; shown_error = none; requests = a ∷ s.requests }
]

unfoldable pub delete_answered : Outcome (Unit {0}) → Deletion → Deletion
delete_answered (ok u) s = record s {
  deleting = none;
  changed = s.changed + 1;
  in_progress = false;
}
delete_answered (throw e) s = record s { shown_error = some e; in_progress = false }

-- Whether the button of the modal is enabled.
unfoldable pub can_confirm : Deletion → Bool
can_confirm s = elim s.deleting [
  | none ↦ false
  | some a ↦ text_eq s.confirm_text a && not s.in_progress
]

pub data Event : Type 0 where
  asked typed : Text → Event
  cancelled confirmed : Event
  answered : Outcome (Unit {0}) → Event

unfoldable pub step : Event → Deletion → Deletion
unfolding ask_delete cancel type_confirmation handle_delete_agent can_confirm
step (asked agent) s = ask_delete agent s
step cancelled s = cancel s
step (typed text) s = type_confirmation text s
step confirmed s = if can_confirm s then handle_delete_agent s else s
step (answered r) s = if s.in_progress then delete_answered r s else s

unfoldable pub run : List Event → Deletion → Deletion
run [] s = s
run (e ∷ es) s = run es (step e s)

unfoldable pub closed : Deletion
closed = record {
  deleting = none;
  in_progress = false;
  shown_error = none;
  confirm_text = [];
  requests = [];
  changed = 0;
}
