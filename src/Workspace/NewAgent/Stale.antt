-- ===== src/Workspace/NewAgent/Stale.antt =====
-- A check of a number that is answered once the number is another.
use agentleh_app.Base.{
  Bool, true, false, [], ◌∷◌, Option, none, some, Text, is_empty, trim, any, text_eq, text_eq_refl,
  ◌≡◌, refl, arith,
}
use agentleh_app.Js.{ok}
use agentleh_app.Workspace.NewAgent.{
  PhoneNumber, Form, typed_phone, check_arrived, editing, same_text, parsed_phone, phone_e164,
  phone_effects, check_answered, phone_is_ok, can_provision, act, step, run,
}

module _ (parse : Text → Option PhoneNumber) where
  number_of :
      (text : Text) (p : PhoneNumber) (t : Form)
      → t.phone ≡ text
      → is_empty (trim text) ≡ false
      → parse (trim text) ≡ some p
      → p.is_valid ≡ true
      → phone_e164 parse t ≡ some p.number
  unfolding phone_e164 parsed_phone
  number_of text p t q f e v = rw (q, f, e, v) refl

  abbrev typed : Text → Form → Form
  typed text s = record s { phone = text; phone_blurred = false }

  abbrev retyped : Text → Text → Form → Form
  retyped text number s = record s {
    phone = text;
    phone_blurred = false;
    phone_available = none;
    timer = some number;
    phone_checking = true;
  }

  retyped_lem :
      (text number : Text) (s : Form)
      → editing s ≡ true
      → phone_e164 parse (typed text s) ≡ some number
      → same_text (phone_e164 parse s) (some number) ≡ false
      → step parse (typed_phone text) s ≡ retyped text number s
  unfolding step act phone_effects
  retyped_lem text number s o q d = rw (o, q, d) refl

  same_text_refl : (t : Option Text) → same_text t t ≡ true
  same_text_refl none = refl
  same_text_refl (some t) = text_eq_refl t

  answered_lem :
      (n : Text) (available : Bool) (t : Form)
      → any (λ c. text_eq c n) t.checks ≡ true
      → phone_e164 parse (check_answered n (ok available) t) ≡ phone_e164 parse t
      → step parse (check_arrived n (ok available)) t ≡ check_answered n (ok available) t
  unfolding step act phone_effects
  answered_lem n available t c q = rw (c, q, same_text_refl (phone_e164 parse t)) refl

  enabled :
      (n number : Text) (available : Bool) (t : Form)
      → is_empty (trim t.name) ≡ false
      → is_empty (trim t.phone) ≡ false
      → phone_e164 parse (check_answered n (ok available) t) ≡ some number
      → can_provision parse (check_answered n (ok available) t) ≡ available
  unfolding can_provision phone_is_ok check_answered
  enabled n number true t w f q = ground arith
  enabled n number false t w f q = ground arith

  -- The phone is changed to another valid number while a check of the old one is in flight. Once that is answered, the
  -- button is enabled if the old number was free, and disabled if it was taken, although the new number is still to be
  -- checked.
  run-stale :
      (n text : Text) (p : PhoneNumber) (available : Bool) (s : Form)
      → editing s ≡ true
      → is_empty (trim s.name) ≡ false
      → is_empty (trim text) ≡ false
      → parse (trim text) ≡ some p
      → p.is_valid ≡ true
      → same_text (phone_e164 parse s) (some p.number) ≡ false
      → any (λ c. text_eq c n) s.checks ≡ true
      → let after = run parse (typed_phone text ∷ check_arrived n (ok available) ∷ []) s in
        (can_provision parse after ≡ available) × (after.timer ≡ some p.number)
  unfolding run
  run-stale n text p available s o named f e v d c =
      let t = retyped text p.number s in
      let q = number_of text p (typed text s) refl f e v in
      rw
        (
          retyped_lem text p.number s o q d,
          answered_lem n available t c (unfold check_answered phone_e164 parsed_phone in refl),
        )
        (
          enabled n p.number available t named f (
              number_of text p (check_answered n (ok available) t) (unfold check_answered in refl) f
                e v),
          unfold check_answered in refl,
        )
