-- ===== src/Workspace/NewAgent.antt =====
-- The form for a new agent in the dashboard tab of frontend/src/pages/TenantPage.tsx, for a member who may create one.
-- An event that the form does not offer changes nothing: its fields and its button are there while it is open and no
-- agent is being created. State updates are applied at once, and the effects that they cause run after the event.
pub mod Requests
pub mod Stale
pub mod Help
use agentleh_app.Base.{
  ℕ, ◌+◌, Bool, true, false, not, ◌&&◌, ◌||◌, List, [], ◌∷◌, Option, none, some, Text, codes,
  is_empty, text_eq, trim, any, if◌then◌else◌,
}
use agentleh_app.Js.{Outcome, ok, throw, Error}

-- What the form reads of a number that `parsePhoneNumberFromString` gives.
pub record PhoneNumber : Type 0 where
  pub is_valid : Bool
  pub number : Text
  pub international : Text  -- `formatInternational()`

pub data Gender : Type 0 where
  female male : Gender

-- The body of `provisionTenantAgent`; an optional field that is omitted is none.
pub record AgentRequest : Type 0 where
  pub agent_name : Text
  pub agent_gender : Gender
  pub phone : Option Text
  pub user_name : Option Text
  pub user_gender : Option Gender
  pub tts_voice_name : Option Text

pub record Progress : Type 0 where
  pub step_number : ℕ
  pub total : ℕ
  pub label : Text

pub record Form : Type 0 where
  pub shown : Bool  -- `showNewAgent`
  pub name : Text
  pub gender : Gender
  pub voice : Text
  pub phone : Text
  pub user_name : Text
  pub user_gender : Option Gender
  pub phone_blurred : Bool
  pub phone_available : Option Bool
  pub phone_checking : Bool
  pub provisioning : Bool
  pub provision_error : Option Error
  pub progress : Progress
  pub timer : Option Text  -- the number whose check is to be asked for in 400 ms
  pub checks : List Text  -- the checks in flight
  pub requests : List AgentRequest  -- what `provisionTenantAgent` was given, the latest first
  pub changed : ℕ  -- calls of `onChanged`

abbrev pub is_some {ℓ} : {A : Type ℓ} → Option A → Bool
is_some none = false
is_some (some a) = true

abbrev pub same_text : Option Text → Option Text → Bool
same_text none none = true
same_text (some a) (some b) = text_eq a b
same_text _ _ = false

-- `x || undefined`
abbrev pub or_undefined : Text → Option Text
or_undefined t = if is_empty t then none else some t

-- `Escape`, the backdrop and the buttons that close the form.
unfoldable pub close_form : Form → Form
close_form s = if s.provisioning then s else record s { shown = false }

unfoldable pub drop_check : Text → List Text → List Text
drop_check n [] = []
drop_check n (c ∷ cs) = if text_eq c n then cs else c ∷ drop_check n cs

pub data Event : Type 0 where
  toggled dismissed blurred timer_due submitted : Event
  typed_name typed_user_name typed_phone picked_voice : Text → Event
  picked_gender : Gender → Event
  picked_user_gender : Option Gender → Event
  check_arrived : Text → Outcome Bool → Event
  progressed : Progress → Event
  provisioned : Outcome (Unit {0}) → Event

abbrev pub editing : Form → Bool
editing s = s.shown && not s.provisioning

abbrev pub valid_number : Option PhoneNumber → Option Text
valid_number none = none
valid_number (some p) = if p.is_valid then some p.number else none

unfoldable pub timer_fired : Form → Form
timer_fired s = elim s.timer [
  | none ↦ s
  | some n ↦ record s { timer = none; checks = n ∷ s.checks }
]

unfoldable pub check_answered : Text → Outcome Bool → Form → Form
check_answered n (ok available) s = record s {
  phone_available = some available;
  phone_checking = false;
  checks = drop_check n s.checks;
}
check_answered n (throw e) s = record s {
  phone_available = none;
  phone_checking = false;
  checks = drop_check n s.checks;
}

abbrev pub is_taken : Option Bool → Bool
is_taken none = false
is_taken (some available) = not available

-- The rest of `handleProvision`.
unfoldable pub provision_answered : Outcome (Unit {0}) → Form → Form
provision_answered (ok u) s = record s {
  name = [];
  voice = [];
  phone = [];
  user_name = [];
  user_gender = none;
  phone_blurred = false;
  phone_available = none;
  shown = false;
  changed = s.changed + 1;
  provisioning = false;
}
provision_answered (throw e) s = record s { provision_error = some e; provisioning = false }

-- `parse` is `parsePhoneNumberFromString` with the region IL.
module _ (parse : Text → Option PhoneNumber) where
  unfoldable pub parsed_phone : Form → Option PhoneNumber
  parsed_phone s = if is_empty (trim s.phone) then none else parse (trim s.phone)

  unfoldable pub phone_e164 : Form → Option Text
  unfolding parsed_phone
  phone_e164 s = valid_number (parsed_phone s)

  -- The two effects on a change of the number: what was known is forgotten, and the new one is to be checked.
  unfoldable pub phone_effects : Option Text → Form → Form
  phone_effects before s =
      let now = phone_e164 s in
      if same_text before now
      then s
      else record s { phone_available = none; timer = now; phone_checking = is_some now }

  unfoldable pub handle_phone_blur : Form → Form
  handle_phone_blur s =
      let left = record s { phone_blurred = true } in
      elim (parsed_phone s) [
        | none ↦ left
        | some p ↦ if p.is_valid then record left { phone = p.international } else left
      ]

  unfoldable pub phone_is_ok : Form → Bool
  unfolding phone_e164
  phone_is_ok s =
      is_empty (trim s.phone)
      || (is_some (phone_e164 s) && not (is_taken s.phone_available) && not s.phone_checking)

  unfoldable pub can_provision : Form → Bool
  unfolding phone_is_ok
  can_provision s = not (is_empty (trim s.name)) && phone_is_ok s

  unfoldable pub request_of : Form → AgentRequest
  request_of s = record {
    agent_name = trim s.name;
    agent_gender = s.gender;
    phone = phone_e164 s;
    user_name = or_undefined (trim s.user_name);
    user_gender = s.user_gender;
    tts_voice_name = or_undefined s.voice;
  }

  -- `handleProvision`, up to its request.
  unfoldable pub handle_provision : Form → Form
  unfolding can_provision request_of
  handle_provision s =
      if can_provision s
      then record s {
        provisioning = true;
        provision_error = none;
        progress = record {
          step_number = 0;
          total = if is_some (phone_e164 s) then 5 else 4;
          label = codes "Connecting…";
        };
        requests = request_of s ∷ s.requests;
      }
      else s

  -- What an event does by itself; an answer to no check in flight is no event.
  unfoldable pub act : Event → Form → Form
  unfolding timer_fired check_answered
  act toggled s = record s { shown = not s.shown }
  act dismissed s = close_form s
  act blurred s = if editing s then handle_phone_blur s else s
  act timer_due s = timer_fired s
  act submitted s = if editing s then handle_provision s else s
  act (typed_name text) s = if editing s then record s { name = text } else s
  act (typed_user_name text) s = if editing s then record s { user_name = text } else s
  act (typed_phone text) s =
      if editing s then record s { phone = text; phone_blurred = false } else s
  act (picked_voice voice) s = if editing s then record s { voice = voice } else s
  act (picked_gender gender) s = if editing s then record s { gender = gender } else s
  act (picked_user_gender gender) s = if editing s then record s { user_gender = gender } else s
  act (check_arrived n r) s = if any (λ c. text_eq c n) s.checks then check_answered n r s else s
  act (progressed p) s = if s.provisioning then record s { progress = p } else s
  act (provisioned r) s = if s.provisioning then provision_answered r s else s

  unfoldable pub step : Event → Form → Form
  step e s = phone_effects (phone_e164 s) (act e s)

  unfoldable pub run : List Event → Form → Form
  run [] s = s
  run (e ∷ es) s = run es (step e s)

unfoldable pub opened : Form
opened = record {
  shown = false;
  name = [];
  gender = female;
  voice = [];
  phone = [];
  user_name = [];
  user_gender = none;
  phone_blurred = false;
  phone_available = none;
  phone_checking = false;
  provisioning = false;
  provision_error = none;
  progress = record { step_number = 0; total = 5; label = [] };
  timer = none;
  checks = [];
  requests = [];
  changed = 0;
}
