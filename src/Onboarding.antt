-- ===== src/Onboarding.antt =====
-- The form of frontend/src/pages/OnboardingPage.tsx, which asks for the user's first agent. A submission is one function:
-- what the page keeps meanwhile is the progress that the stream told last.
pub mod Submission
use agentleh_app.Base.{
  ℕ, ◌+◌, Bool, true, false, not, ◌&&◌, ◌||◌, List, [], ◌∷◌, Option, none, some, Text, codes,
  is_empty, trim, if◌then◌else◌,
}
use agentleh_app.Js.{Js, str, obj, end, field, Outcome, ok, throw, Error}
use agentleh_app.Net.{Service, World}
use agentleh_app.Stream.{Progress, Success}
use agentleh_app.Api.Streams.{submit_onboarding}
use agentleh_app.Workspace.NewAgent.{PhoneNumber, valid_number, is_some}

pub record Fields : Type 0 where
  pub full_name : Text
  pub phone : Text
  pub gender : Text
  pub agent_name : Text
  pub agent_gender : Text
  pub tts_voice_name : Text

-- What the bar is given: the first state with its number of steps, or what the stream told.
pub data Shown : Type 0 where
  connecting : ℕ → Shown
  told : Progress → Shown

pub record Page : Type 0 where
  pub form : Fields
  pub loading : Bool
  pub progress : Shown
  pub error : Option Error
  pub completed : ℕ  -- calls of `onComplete`

unfoldable pub opened : Text → Page
opened full_name = record {
  form = record {
    full_name = full_name;
    phone = [];
    gender = [];
    agent_name = [];
    agent_gender = [];
    tts_voice_name = [];
  };
  loading = false;
  progress = connecting 4;
  error = none;
  completed = 0;
}

-- `setProgress` for each tick.
unfoldable pub last_told : Shown → List Progress → Shown
last_told shown [] = shown
last_told shown (p ∷ ps) = last_told (told p) ps

unfoldable pub submitted : Outcome Success → Page → Page
submitted (ok r) s = record s { completed = s.completed + 1; loading = false }
submitted (throw e) s = record s { error = some e; loading = false }

-- `parse` is `parsePhoneNumberFromString` with the region IL.
module _ (parse : Text → Option PhoneNumber) where
  unfoldable pub parsed_phone : Fields → Option PhoneNumber
  parsed_phone f = if is_empty (trim f.phone) then none else parse (trim f.phone)

  unfoldable pub phone_e164 : Fields → Option Text
  unfolding parsed_phone
  phone_e164 f = valid_number (parsed_phone f)

  unfoldable pub phone_invalid : Fields → Bool
  unfolding phone_e164
  phone_invalid f = not (is_empty (trim f.phone)) && not (is_some (phone_e164 f))

  unfoldable pub handle_phone_blur : Page → Page
  unfolding parsed_phone
  handle_phone_blur s = elim (parsed_phone s.form) [
    | none ↦ s
    | some p ↦
        if p.is_valid then record s { form = record s.form { phone = p.international } } else s
  ]

  unfoldable pub is_valid : Fields → Bool
  unfolding phone_invalid
  is_valid f =
      not (is_empty f.full_name)
      && not (is_empty f.gender)
      && not (is_empty f.agent_name)
      && not (is_empty f.agent_gender)
      && not (is_empty f.tts_voice_name)
      && not (phone_invalid f)

  -- The body: the spread of the form with the number in its place.
  unfoldable pub body_of : Fields → Js
  unfolding phone_e164
  body_of f =
      let phone : Text = elim (phone_e164 f) [ none ↦ [] | some n ↦ n ] in
      obj (
        field (codes "full_name") (str f.full_name) (
          field (codes "phone") (str phone) (
            field (codes "gender") (str f.gender) (
              field (codes "agent_name") (str f.agent_name) (
                field (codes "agent_gender") (str f.agent_gender)
                  (field (codes "tts_voice_name") (str f.tts_voice_name) end))))))

  module _ {E : Type 0} (svc : Service E) (parse_json : Text → Option Js) where
    -- `handleSubmit`; its button is disabled unless the form is valid, and not there while it loads.
    unfoldable pub handle_submit : Page → World E → Page × World E
    unfolding submitted last_told
    handle_submit s w =
        if is_valid s.form && not s.loading
        then (let started = connecting (if is_some (phone_e164 s.form) then 5 else 4) in
            let ((ticks, r), w') = submit_onboarding svc parse_json (body_of s.form) w in
            (
              submitted r
                  (record s { loading = true; error = none; progress = last_told started ticks }),
              w',
            ))
        else (s, w)
