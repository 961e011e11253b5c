-- ===== src/Workspace/NewAgent/Help.antt =====
-- The line under the number of the form for a new agent, frontend/src/pages/TenantPage.tsx.
use agentleh_app.Base.{
  Bool, true, false, not, ◌&&◌, Option, none, some, Text, is_empty, trim, if◌then◌else◌, ◌≡◌, arith,
  Bool-cases, Option-cases, inl, inr,
}
use agentleh_app.Workspace.NewAgent.{
  PhoneNumber, Form, is_some, is_taken, phone_e164, phone_is_ok, can_provision,
}

pub data Help : Type 0 where
  already_connected not_valid optional_hint : Help
  saved_as : Text → Bool → Help  -- the number, and whether it is being checked

-- The line is in the colour of danger.
abbrev pub is_error : Help → Bool
is_error already_connected = true
is_error not_valid = true
is_error _ = false

module _ (parse : Text → Option PhoneNumber) where
  unfoldable pub phone_help : Form → Help
  phone_help s =
      if is_taken s.phone_available
      then already_connected
      else if s.phone_blurred && not (is_empty (trim s.phone)) && not (is_some (phone_e164 parse s))
      then not_valid
      else elim (phone_e164 parse s) [ none ↦ optional_hint | some n ↦ saved_as n s.phone_checking ]

  -- The button to create an agent is not enabled above an error of its number, where an empty number is not marked as
  -- taken.
  phone_help-can_provision :
      (s : Form)
      → can_provision parse s ≡ true
      → (is_empty (trim s.phone) ≡ true → is_taken s.phone_available ≡ false)
      → is_error (phone_help s) ≡ false
  unfolding phone_help can_provision phone_is_ok
  phone_help-can_provision s c h = elim (Bool-cases (is_taken s.phone_available)) [
    | inl t ↦ absurd (ground (arith, h))
    | inr t ↦ elim (Option-cases (phone_e164 parse s)) [
      | inl e ↦ rw (t, e) (ground arith)
      | inr (n, e) ↦ rw (t, e) (ground arith)
    ]
  ]
