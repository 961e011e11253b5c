-- ===== src/Coupon/Modal.antt =====
-- The dialog for a coupon, `RedeemCouponModal` in frontend/src/pages/TenantPage.tsx: the debounced preview, whose requests
-- can be in flight together, the redemption, and the messages of errors.
pub mod Short
use agentleh_app.Base.{
  ℕ, ◌+◌, Bool, true, false, not, ◌&&◌, List, [], ◌∷◌, ◌++◌, Option, none, some, Text, codes,
  text_eq, trim, length, ltb, if◌then◌else◌,
}
use agentleh_app.Js.{
  Js, Outcome, ok, throw, Error, coupon_api_error, str, undefined, or_js, opt, truthy,
}
use agentleh_app.Coupon.Page.{Preview}
use agentleh_app.Coupon.Message.{lookup_message}
use agentleh_app.Prefs.Lang.{Bilingual}

-- `CouponErrState`
pub record CouponErr : Type 0 where
  pub code : Js
  pub detail : Js

pub record Modal : Type 0 where
  pub code : Text
  pub preview : Option Preview
  pub preview_error : Option CouponErr
  pub redeeming : Bool
  pub redeem_error : Option CouponErr
  pub timer : Option Text  -- the code whose preview is to be asked for in 350 ms
  pub asked : List Text  -- the previews in flight, the latest first
  pub redeemed : List Text  -- the codes sent to `redeemCoupon`, the latest first
  pub completed : ℕ  -- calls of `onRedeemed`

-- `e instanceof CouponApiError ? … : { code: fallback }`
unfoldable pub err_state : Text → Error → CouponErr
err_state fallback (coupon_api_error status code detail) = record { code = code; detail = detail }
err_state fallback e = record { code = str fallback; detail = undefined }

-- The effect on the code, with the cleanup of the one before.
unfoldable pub preview_effect : Modal → Modal
preview_effect s =
    let trimmed = trim s.code in
    if ltb (length trimmed) 6
    then record s { preview = none; preview_error = none; timer = none }
    else record s { timer = some trimmed }

unfoldable pub type_code : Text → Modal → Modal
unfolding preview_effect
type_code code s = if text_eq code s.code then s else preview_effect (record s { code = code })

unfoldable pub fire_timer : Modal → Modal
fire_timer s = elim s.timer [ none ↦ s | some t ↦ record s { timer = none; asked = t ∷ s.asked } ]

-- Whether a preview of a code was asked for, and the others of those in flight.
unfoldable pub take_asked : Text → List Text → Option (List Text)
take_asked t [] = none
take_asked t (a ∷ asked) =
    let rest : Option (List Text) = elim (take_asked t asked) [
      | none ↦ none
      | some r ↦ some (a ∷ r)
    ] in
    if text_eq a t then some asked else rest

unfoldable pub preview_answered : Outcome Preview → Modal → Modal
unfolding err_state
preview_answered (ok p) s = record s { preview = some p; preview_error = none }
preview_answered (throw e) s = record s {
  preview = none;
  preview_error = some (err_state (codes "preview_failed") e);
}

unfoldable pub preview_arrived : Text → Outcome Preview → Modal → Modal
preview_arrived t r s = elim (take_asked t s.asked) [
  | none ↦ s
  | some rest ↦ preview_answered r (record s { asked = rest })
]

unfoldable pub can_redeem : Modal → Bool
can_redeem s = elim s.preview [
  | none ↦ false
  | some p ↦ not p.already_redeemed_by_user && not s.redeeming
]

-- `handleSubmit` by the button, up to its request, and the rest of it.
unfoldable pub handle_submit : Modal → Modal
unfolding can_redeem
handle_submit s =
    if can_redeem s
    then record s { redeeming = true; redeem_error = none; redeemed = trim s.code ∷ s.redeemed }
    else s

unfoldable pub redeem_answered : Outcome (Unit {0}) → Modal → Modal
unfolding err_state
redeem_answered (ok u) s = record s { redeeming = false; completed = s.completed + 1 }
redeem_answered (throw e) s = record s {
  redeeming = false;
  redeem_error = some (err_state (codes "redeem_failed") e);
}

pub data Event : Type 0 where
  typed : Text → Event
  waited clicked : Event
  previewed : Text → Outcome Preview → Event
  answered : Outcome (Unit {0}) → Event

unfoldable pub step : Event → Modal → Modal
step (typed code) s = type_code code s
step waited s = fire_timer s
step clicked s = handle_submit s
step (previewed t r) s = preview_arrived t r s
step (answered r) s = redeem_answered r s

unfoldable pub run : List Event → Modal → Modal
run [] s = s
run (e ∷ es) s = run es (step e s)

unfoldable pub opened : Modal
opened = record {
  code = [];
  preview = none;
  preview_error = none;
  redeeming = false;
  redeem_error = none;
  timer = none;
  asked = [];
  redeemed = [];
  completed = 0;
}

-- `errorMsgEn` of an error, with `ERROR_EN` as a table; `show` is `String(v)`.
unfoldable pub error_msg_en : List (Text × Bilingual) → (Js → Text) → Text → Js → Text
error_msg_en table show code detail = elim (lookup_message code table) [
  | some m ↦ m.en
  | none ↦
      codes "Error: "
      ++ show (
          or_js (or_js (opt detail (codes "message")) (opt detail (codes "message_he"))) (str code))
]

unfoldable pub error_msg_he :
    (Text → Text) → List (Text × Bilingual) → (Js → Text) → Text → Js → Text
error_msg_he hebrew table show code detail = elim (lookup_message code table) [
  | some m ↦ m.he
  | none ↦
      hebrew (codes "error")
      ++ show (
          or_js (or_js (opt detail (codes "message_he")) (opt detail (codes "message"))) (str code))
]

-- `ERROR_HE` and `ERROR_EN`, the Hebrew words by a parameter.
unfoldable pub error_table : (Text → Text) → List (Text × Bilingual)
error_table hebrew =
    entry (codes "coupon_not_found") (codes "Coupon code not found")
    ∷ entry (codes "coupon_disabled") (codes "Coupon is disabled")
    ∷ entry (codes "coupon_expired") (codes "Coupon has expired")
    ∷ entry (codes "coupon_not_yet_valid") (codes "Coupon is not yet active")
    ∷ entry (codes "coupon_exhausted") (codes "Coupon has been fully redeemed")
    ∷ entry (codes "coupon_already_redeemed") (codes "You have already redeemed this coupon")
    ∷ entry (codes "invalid_plan") (codes "Coupon plan is invalid")
    ∷ entry (codes "rate_limited") (codes "Too many attempts — try again in a minute")
    ∷ []
  where
    entry : Text → Text → Text × Bilingual
    entry code english = (code, record { he = hebrew code; en = english })
