-- ===== src/Workspace/NewAgent/Requests.antt =====
-- When the form for a new agent asks for one.
use agentleh_app.Base.{
  true, false, ◌∷◌, Option, none, some, Text, is_empty, trim, ◌≡◌, ◌≢◌, refl, arith, ◌⊎◌, inl, inr,
  Bool-cases, Option-cases,
}
use agentleh_app.Js.{ok, throw}
use agentleh_app.Workspace.NewAgent.{
  PhoneNumber, Form, Event, toggled, dismissed, blurred, timer_due, submitted, typed_name,
  typed_user_name, typed_phone, picked_voice, picked_gender, picked_user_gender, check_arrived,
  progressed, provisioned, editing, close_form, parsed_phone, phone_e164, phone_effects,
  timer_fired, check_answered, handle_phone_blur, phone_is_ok, can_provision, request_of,
  handle_provision, provision_answered, act, step,
}

module _ (parse : Text → Option PhoneNumber) where
  -- A phone that is left empty, or a valid number that is not known to be taken, with no check pending.
  pub record IsChecked (s : Form) (n : Text) : Type 0 where
    pub number : phone_e164 parse s ≡ some n
    pub not_taken : s.phone_available ≢ some false
    pub not_pending : s.phone_checking ≡ false

  pub record IsGranted (e : Event) (s : Form) : Type 0 where
    pub by_button : e ≡ submitted
    pub open_form : s.shown ≡ true
    pub no_other : s.provisioning ≡ false
    pub named : is_empty (trim s.name) ≡ false
    pub phone :
        ((is_empty (trim s.phone) ≡ true) × (phone_e164 parse s ≡ none))
        ⊎ ((n : Text) × IsChecked s n)

  phone_effects-requests :
      (before : Option Text) (s : Form) → (phone_effects parse before s).requests ≡ s.requests
  unfolding phone_effects
  phone_effects-requests before s = ground arith

  checked :
      (s : Form)
      → phone_is_ok parse s ≡ true
      → ((is_empty (trim s.phone) ≡ true) × (phone_e164 parse s ≡ none))
        ⊎ ((n : Text) × IsChecked s n)
  unfolding phone_is_ok
  checked s c = elim (Bool-cases (is_empty (trim s.phone))) [
    | inl e ↦ inl (e, unfold phone_e164 parsed_phone in rw e refl)
    | inr e ↦ elim (Option-cases (phone_e164 parse s)) [
      | inl q ↦ absurd (ground arith)
      | inr (n, q) ↦
          inr (n, record { number = q; not_taken = λ t. ground arith; not_pending = ground arith })
    ]
  ]

  granted : (s : Form) → editing s ≡ true → can_provision parse s ≡ true → IsGranted submitted s
  unfolding can_provision
  granted s o c = record {
    by_button = refl;
    open_form = ground arith;
    no_other = ground arith;
    named = ground arith;
    phone = checked s (ground arith);
  }

  act-requests :
      (e : Event) (s : Form)
      → ((act parse e s).requests ≡ s.requests)
        ⊎ (((act parse e s).requests ≡ request_of parse s ∷ s.requests) × IsGranted e s)
  unfolding act
  act-requests submitted s = elim (Bool-cases (editing s)) [
    | inr e ↦ inl (rw e refl)
    | inl e ↦ elim (Bool-cases (can_provision parse s)) [
      | inr c ↦ inl (unfold handle_provision in rw (e, c) refl)
      | inl c ↦ inr (unfold handle_provision in rw (e, c) refl, granted s e c)
    ]
  ]
  act-requests toggled s = inl refl
  act-requests dismissed s = inl (unfold close_form in ground arith)
  act-requests blurred s = inl (unfold handle_phone_blur in ground arith)
  act-requests timer_due s = inl (unfold timer_fired in ground arith)
  act-requests (typed_name text) s = inl (ground arith)
  act-requests (typed_user_name text) s = inl (ground arith)
  act-requests (typed_phone text) s = inl (ground arith)
  act-requests (picked_voice text) s = inl (ground arith)
  act-requests (picked_gender g) s = inl (ground arith)
  act-requests (picked_user_gender g) s = inl (ground arith)
  act-requests (check_arrived n (ok a)) s = inl (unfold check_answered in ground arith)
  act-requests (check_arrived n (throw e)) s = inl (unfold check_answered in ground arith)
  act-requests (progressed p) s = inl (ground arith)
  act-requests (provisioned (ok u)) s = inl (unfold provision_answered in ground arith)
  act-requests (provisioned (throw e)) s = inl (unfold provision_answered in ground arith)

  pub step-requests :
      (e : Event) (s : Form)
      → ((step parse e s).requests ≡ s.requests)
        ⊎ (((step parse e s).requests ≡ request_of parse s ∷ s.requests) × IsGranted e s)
  unfolding step
  step-requests e s =
      rw (phone_effects-requests (phone_e164 parse s) (act parse e s)) (act-requests e s)
