-- ===== src/Bridges/Whatsapp.antt =====
-- The WhatsApp number of an agent in frontend/src/components/BridgesPanel.tsx: the dialog, the check of a number, saving and
-- disconnecting. An event that the panel does not offer changes nothing. State updates are applied at once, and the
-- effect that they cause runs after the event.
pub mod Patches
use agentleh_app.Base.{
  ℕ, Bool, true, false, not, ◌&&◌, ◌||◌, List, [], ◌∷◌, Option, none, some, Text, is_empty, text_eq,
  trim, any, keep, is_digit, if◌then◌else◌,
}
use agentleh_app.Js.{Outcome, ok, throw, Error}
use agentleh_app.Workspace.NewAgent.{
  PhoneNumber, is_some, same_text, valid_number, is_taken, drop_check,
}

-- `BridgesResponse['bridges']['whatsapp']`
pub record Bridge : Type 0 where
  pub enabled : Bool
  pub phone : Option Text

pub record Panel : Type 0 where
  pub wa : Option Bridge  -- `data?.bridges.whatsapp`
  pub modal_open : Bool
  pub phone_input : Text
  pub phone_available : Option Bool
  pub phone_checking : Bool
  pub busy : Bool
  pub wa_error : Option Error
  pub shown_error : Option Error
  pub timer : Option Text  -- the number whose check is to be asked for in 400 ms
  pub checks : List Text  -- the checks in flight
  pub patches : List (Option Text)  -- what `patchWhatsappBridge` was given, the latest first

-- `wa?.phone`
abbrev pub phone_of : Option Bridge → Option Text
phone_of none = none
phone_of (some b) = b.phone

abbrev pub text_or_empty : Option Text → Text
text_or_empty none = []
text_or_empty (some t) = t

abbrev pub is_enabled : Option Bridge → Bool
is_enabled none = false
is_enabled (some b) = b.enabled

-- `s.replace(/\D/g, '')`
unfoldable pub digits_of : Text → Text
digits_of t = keep is_digit t

-- Whether a number is the one that is connected.
unfoldable pub is_own : Option Text → Text → Bool
unfolding digits_of
is_own current number =
    not (is_empty (digits_of (text_or_empty current)))
    && text_eq (digits_of (text_or_empty current)) (digits_of number)

unfoldable pub open_modal : Option Text → Panel → Panel
open_modal prefill s = record s {
  phone_input = text_or_empty prefill;
  phone_available = none;
  wa_error = none;
  modal_open = true;
}

unfoldable pub timer_fired : Panel → Panel
timer_fired s = elim s.timer [
  | none ↦ s
  | some n ↦ record s { timer = none; checks = n ∷ s.checks }
]

-- The end of a check, which the cleanup of the effect does not cancel.
unfoldable pub check_answered : Text → Outcome Bool → Panel → Panel
check_answered n (ok available) s = record s {
  phone_available = some available;
  phone_checking = false;
  checks = drop_check n s.checks;
}
check_answered n (throw e) s = record s {
  phone_available = none;
  phone_checking = false;
  checks = drop_check n s.checks;
}

unfoldable pub save_answered : Outcome Bridge → Panel → Panel
save_answered (ok b) s = record s { wa = some b; modal_open = false; busy = false }
save_answered (throw e) s = record s { wa_error = some e; busy = false }

-- `disconnectWhatsapp`, with the answer of the browser's dialog, up to its request, and the rest of it.
unfoldable pub disconnect_whatsapp : Bool → Panel → Panel
disconnect_whatsapp agreed s =
    if agreed then record s { busy = true; patches = none ∷ s.patches } else s

unfoldable pub disconnect_answered : Outcome Bridge → Panel → Panel
disconnect_answered (ok b) s = record s { wa = some b; busy = false }
disconnect_answered (throw e) s = record s { shown_error = some e; busy = false }

pub data Event : Type 0 where
  connect_pressed edit_pressed dismissed blurred timer_due save_pressed : Event
  disconnect_pressed : Bool → Event
  typed : Text → Event
  check_arrived : Text → Outcome Bool → Event
  refreshed saved disconnected : Outcome Bridge → Event

-- `parse` is `parsePhoneNumberFromString` with the region IL.
module _ (parse : Text → Option PhoneNumber) where
  unfoldable pub parsed_phone : Panel → Option PhoneNumber
  parsed_phone s = if is_empty (trim s.phone_input) then none else parse (trim s.phone_input)

  -- `waE164`
  unfoldable pub phone_e164 : Panel → Option Text
  unfolding parsed_phone
  phone_e164 s = valid_number (parsed_phone s)

  -- The effect on the number and the connected one; its cleanup clears the timer.
  unfoldable pub phone_effect : Panel → Panel
  unfolding is_own
  phone_effect s =
      let left = record s { timer = none; phone_checking = false } in
      elim (phone_e164 s) [
        | none ↦ record left { phone_available = none }
        | some n ↦
            if is_own (phone_of s.wa) n
            then record left { phone_available = some true }
            else record left { phone_checking = true; timer = some n }
      ]

  unfoldable pub after_event : Panel → Panel → Panel
  unfolding phone_effect
  after_event before s =
      if same_text (phone_e164 before) (phone_e164 s)
        && same_text (phone_of before.wa) (phone_of s.wa)
      then s
      else phone_effect s

  unfoldable pub handle_blur : Panel → Panel
  handle_blur s = elim (parsed_phone s) [
    | none ↦ s
    | some p ↦ if p.is_valid then record s { phone_input = p.international } else s
  ]

  unfoldable pub can_save : Panel → Bool
  can_save s =
      is_some (phone_e164 s)
      && not s.busy
      && not (is_taken s.phone_available)
      && not s.phone_checking

  -- `saveWhatsapp`, up to its request.
  unfoldable pub save_whatsapp : Panel → Panel
  save_whatsapp s = elim (phone_e164 s) [
    | none ↦ s
    | some n ↦ record s { busy = true; wa_error = none; patches = some n ∷ s.patches }
  ]

  -- What an event does by itself, for a user who may edit; an answer to no check in flight is no event.
  unfoldable pub act : Event → Panel → Panel
  unfolding open_modal timer_fired check_answered save_answered disconnect_whatsapp
      disconnect_answered
  act connect_pressed s = if is_some s.wa && not (is_enabled s.wa) then open_modal none s else s
  act edit_pressed s = if is_enabled s.wa then open_modal (phone_of s.wa) s else s
  act dismissed s = record s { modal_open = false }
  act blurred s = if s.modal_open then handle_blur s else s
  act timer_due s = timer_fired s
  act save_pressed s = if s.modal_open && can_save s then save_whatsapp s else s
  act (disconnect_pressed agreed) s =
      if is_enabled s.wa && not s.busy then disconnect_whatsapp agreed s else s
  act (typed text) s = if s.modal_open then record s { phone_input = text } else s
  act (check_arrived n r) s = if any (λ c. text_eq c n) s.checks then check_answered n r s else s
  act (refreshed (ok b)) s = record s { wa = some b }
  act (refreshed (throw e)) s = record s { shown_error = some e }
  act (saved r) s = if s.busy then save_answered r s else s
  act (disconnected r) s = if s.busy then disconnect_answered r s else s

  unfoldable pub step : Event → Panel → Panel
  step e s = after_event s (act e s)

  unfoldable pub run : List Event → Panel → Panel
  run [] s = s
  run (e ∷ es) s = run es (step e s)
