-- ===== src/Bridges/Whatsapp/Patches.antt =====
-- When the WhatsApp number of an agent is changed.
use agentleh_app.Base.{
  true, false, not, ◌&&◌, ◌∷◌, Option, none, some, Text, ◌≡◌, ◌≢◌, refl, arith, ◌⊎◌, inl, inr,
  Bool-cases, Option-cases,
}
use agentleh_app.Js.{ok, throw}
use agentleh_app.Workspace.NewAgent.{PhoneNumber}
use agentleh_app.Bridges.Whatsapp.{
  Panel, is_enabled, open_modal, timer_fired, check_answered, save_answered, disconnect_whatsapp,
  disconnect_answered, Event, connect_pressed, edit_pressed, dismissed, blurred, timer_due,
  save_pressed, disconnect_pressed, typed, check_arrived, refreshed, saved, disconnected,
  phone_e164, phone_effect, after_event, handle_blur, can_save, save_whatsapp, act, step,
}

module _ (parse : Text → Option PhoneNumber) where
  -- What a change of the number takes of the event and of the state before it.
  abbrev pub Permits : Event → Panel → Option Text → Type 0
  Permits e s none = (e ≡ disconnect_pressed true) × (is_enabled s.wa ≡ true) × (s.busy ≡ false)
  Permits e s (some n) =
      (e ≡ save_pressed)
      × (phone_e164 parse s ≡ some n)
      × (s.modal_open ≡ true)
      × (s.phone_available ≢ some false)
      × (s.phone_checking ≡ false)
      × (s.busy ≡ false)

  abbrev pub IsPermitted : Event → Panel → Panel → Type 0
  IsPermitted e s s' =
      (s'.patches ≡ s.patches) ⊎ ((n : Option Text) × (s'.patches ≡ n ∷ s.patches) × Permits e s n)

  after_event-patches : (b s : Panel) → (after_event parse b s).patches ≡ s.patches
  unfolding after_event phone_effect
  after_event-patches b s = ground arith

  saving :
      (s : Panel)
      → s.modal_open ≡ true
      → can_save parse s ≡ true
      → IsPermitted save_pressed s (save_whatsapp parse s)
  unfolding can_save save_whatsapp
  saving s o c = elim (Option-cases (phone_e164 parse s)) [
    | inl e ↦ rw (save_whatsapp, e) (inl refl)
    | inr (n, e) ↦
        rw (save_whatsapp, e)
          (inr (some n, refl, (refl, e, o, λ t. ground arith, ground arith, ground arith)))
  ]

  act-IsPermitted : (e : Event) (s : Panel) → IsPermitted e s (act parse e s)
  unfolding act open_modal timer_fired check_answered save_answered disconnect_whatsapp
      disconnect_answered handle_blur
  act-IsPermitted connect_pressed s = inl (ground arith)
  act-IsPermitted edit_pressed s = inl (ground arith)
  act-IsPermitted dismissed s = inl refl
  act-IsPermitted blurred s = inl (ground arith)
  act-IsPermitted timer_due s = inl (ground arith)
  act-IsPermitted save_pressed s = elim (Bool-cases (s.modal_open && can_save parse s)) [
    | inl e ↦ rw (act, e) (saving s (ground arith) (ground arith))
    | inr e ↦ rw (act, e) (inl refl)
  ]
  act-IsPermitted (disconnect_pressed true) s = elim (Bool-cases (is_enabled s.wa && not s.busy)) [
    | inl e ↦ inr (none, ground arith, (refl, ground arith, ground arith))
    | inr e ↦ inl (ground arith)
  ]
  act-IsPermitted (disconnect_pressed false) s = inl (ground arith)
  act-IsPermitted (typed text) s = inl (ground arith)
  act-IsPermitted (check_arrived n r) s = inl (ground arith)
  act-IsPermitted (refreshed (ok b)) s = inl refl
  act-IsPermitted (refreshed (throw e)) s = inl refl
  act-IsPermitted (saved r) s = inl (ground arith)
  act-IsPermitted (disconnected r) s = inl (ground arith)

  -- An event asks at most once for a change of the number. It is given up only as agreed, while there is one and no
  -- change is under way; it is set only by the button of the open dialog, to the valid number that is typed, while
  -- the dialog does not mark it as taken nor as being checked, and no change is under way; an answer for an earlier
  -- number can take these marks away too early.
  pub step-IsPermitted : (e : Event) (s : Panel) → IsPermitted e s (step parse e s)
  unfolding step
  step-IsPermitted e s = rw (step, after_event-patches s (act parse e s)) (act-IsPermitted e s)
