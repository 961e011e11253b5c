-- ===== src/Onboarding/Submission.antt =====
-- What a submission of the onboarding form asks for.
use agentleh_app.Base.{true, false, Option, some, Text, is_empty, trim, ◌≡◌, ◌⊎◌}
use agentleh_app.Js.{Js}
use agentleh_app.Workspace.NewAgent.{PhoneNumber}
use agentleh_app.Onboarding.{Fields, phone_e164}

module _ (parse : Text → Option PhoneNumber) where
  -- A form that is filled, with no phone or a valid number.
  pub record IsFilled (f : Fields) : Type 0 where
    pub named : is_empty f.full_name ≡ false
    pub agent_named : is_empty f.agent_name ≡ false
    pub with_voice : is_empty f.tts_voice_name ≡ false
    pub phone : (is_empty (trim f.phone) ≡ true) ⊎ ((n : Text) × (phone_e164 parse f ≡ some n))
