-- ===== src/Invites.antt =====
-- The page that an invitation links to, frontend/src/pages/InviteAcceptPage.tsx. State updates are applied at once.
pub mod Acceptance
use agentleh_app.Base.{
  ℕ, ◌+◌, Bool, true, false, not, ◌&&◌, List, [], ◌∷◌, Option, none, some, Text, codes, is_empty,
  text_eq, if◌then◌else◌,
}
use agentleh_app.Js.{Outcome, ok, throw}

-- `InvitePreview`, as far as it decides anything.
pub data Status : Type 0 where
  pending accepted revoked expired : Status

pub record Preview : Type 0 where
  pub email : Text
  pub status : Status

-- What the page says of an error: a token or a link that is not one, an invitation of another address, what the call
-- was refused with, or that the acceptance failed.
pub data Message : Type 0 where
  missing_token invalid_link other_email accept_failed : Message
  refused : Text → Message

pub record Page : Type 0 where
  pub token : Text
  pub preview : Option Preview
  pub loading : Bool
  pub shown : Option Message  -- `error`
  pub joined : Option ℕ  -- `accepted`: the workspace
  pub session : Option Text  -- a session, with its address or an empty text
  pub accepting : Bool
  pub accept_calls : List Text  -- the tokens given to `acceptInvite`, the latest first
  pub sign_outs : ℕ

-- The page after its effects have run once.
unfoldable pub opened : Text → Page
opened token = record {
  token = token;
  preview = none;
  loading = not (is_empty token);
  shown = if is_empty token then some missing_token else none;
  joined = none;
  session = none;
  accepting = false;
  accept_calls = [];
  sign_outs = 0;
}

unfoldable pub preview_arrived : Outcome Preview → Page → Page
preview_arrived (ok p) s = record s { preview = some p; loading = false }
preview_arrived (throw e) s = record s { shown = some invalid_link; loading = false }

unfoldable pub signed_in_email : Page → Text
signed_in_email s = elim s.session [ none ↦ [] | some email ↦ email ]

-- `handleAccept`, up to its request, and the rest of it; a refusal comes with its message.
unfoldable pub handle_accept : Page → Page
handle_accept s = elim s.preview [
  | none ↦ s
  | some p ↦ record s { accepting = true; shown = none; accept_calls = s.token ∷ s.accept_calls }
]

unfoldable pub accept_message : Text → Message
accept_message message =
    if text_eq message (codes "invite_email_mismatch")
    then other_email
    else if is_empty message
    then accept_failed
    else refused message

pub data Answer : Type 0 where
  joins : ℕ → Answer
  refuses : Text → Answer

unfoldable pub accept_answered : Answer → Page → Page
unfolding accept_message
accept_answered (joins tenant_id) s = record s { joined = some tenant_id; accepting = false }
accept_answered (refuses message) s = record s {
  shown = some (accept_message message);
  accepting = false;
}

-- `handleSwitchAccount`; the page is loaded anew after it.
unfoldable pub handle_switch_account : Page → Page
unfolding opened
handle_switch_account s = record (opened s.token) {
  accept_calls = s.accept_calls;
  sign_outs = s.sign_outs + 1;
}

-- What is rendered.
pub data View : Type 0 where
  loading_card blank sign_in wrong_account : View
  error_card : Message → View
  joined_card : ℕ → View
  unavailable : Status → View
  accept_button : Bool → View  -- whether it is enabled

abbrev pub error_view : Option Message → View
error_view none = blank
error_view (some m) = error_card m

pub data Event : Type 0 where
  previewed : Outcome Preview → Event
  session_arrived : Option Text → Event
  accept_clicked switch_clicked : Event
  answered : Answer → Event

abbrev pub offers_accept : View → Bool
offers_accept (accept_button enabled) = enabled
offers_accept _ = false

abbrev pub offers_switch : View → Bool
offers_switch (accept_button enabled) = true
offers_switch wrong_account = true
offers_switch _ = false

-- `lower` is `toLowerCase`.
module _ (lower : Text → Text) where
  unfoldable pub emails_match : Preview → Page → Bool
  unfolding signed_in_email
  emails_match p s =
      not (is_empty (signed_in_email s)) && text_eq (lower p.email) (lower (signed_in_email s))

  unfoldable pub invite_view : Preview → Page → View
  unfolding emails_match
  invite_view p s = elim p.status [
    | accepted ↦ unavailable accepted
    | revoked ↦ unavailable revoked
    | expired ↦ unavailable expired
    | pending ↦ elim s.session [
      | none ↦ sign_in
      | some email ↦ if emails_match p s then accept_button (not s.accepting) else wrong_account
    ]
  ]

  unfoldable pub view : Page → View
  unfolding invite_view
  view s = if s.loading then loading_card else elim s.preview [
    | none ↦ elim s.joined [
      | none ↦ error_view s.shown
      | some t ↦ elim s.shown [ none ↦ joined_card t | some m ↦ error_card m ]
    ]
    | some p ↦ elim s.joined [ none ↦ invite_view p s | some t ↦ joined_card t ]
  ]

  -- A click on a button that is not there, or not enabled, is no event, and neither is an answer to nothing.
  unfoldable pub step : Event → Page → Page
  unfolding view
  step (previewed r) s = if s.loading then preview_arrived r s else s
  step (session_arrived session) s = record s { session = session }
  step accept_clicked s = if offers_accept (view s) then handle_accept s else s
  step switch_clicked s = if offers_switch (view s) then handle_switch_account s else s
  step (answered a) s = if s.accepting then accept_answered a s else s

  unfoldable pub run : List Event → Page → Page
  run [] s = s
  run (e ∷ es) s = run es (step e s)
