-- ===== src/Coupon/Page.antt =====
-- The state of the coupon page, frontend/src/pages/RedeemCouponPage.tsx: the debounced preview, whose
-- requests can be in flight together, and the redemption.
use agentleh_app.Base.{
  ℕ, ◌+◌, Bool, true, false, not, ◌&&◌, List, [], ◌∷◌, Option, none, some, Text, text_eq, trim,
  length, ltb, leb, if◌then◌else◌,
}
use agentleh_app.Js.{Outcome, ok, throw, Error}

-- What the page reads of `CouponPreview`.
pub record Preview : Type 0 where
  pub code : Text
  pub already_redeemed_by_user : Bool

pub record Page : Type 0 where
  pub code : Text
  pub preview : Option Preview
  pub preview_error : Option Error
  pub redeeming : Bool
  pub redeem_error : Option Error
  pub timer : Option Text  -- the code whose preview is to be asked for in 350 ms
  pub asked : List Text  -- the previews in flight, the latest first
  pub redeemed : List Text  -- the codes sent to `redeemCoupon`, the latest first
  pub completed : ℕ  -- calls of `onComplete`

abbrev pub min_length : ℕ
min_length = 6

-- The effect that follows a change of the code.
unfoldable pub preview_effect : Page → Page
preview_effect s =
    if ltb (length (trim s.code)) min_length
    then record s { preview = none; preview_error = none; timer = none }
    else record s { timer = some (trim s.code) }

-- `setCode` of the input; the same text changes nothing.
unfoldable pub type_code : Text → Page → Page
unfolding preview_effect
type_code code s = if text_eq code s.code then s else preview_effect (record s { code = code })

unfoldable pub fire_timer : Page → Page
fire_timer s = elim s.timer [ none ↦ s | some t ↦ record s { timer = none; asked = t ∷ s.asked } ]

-- A preview that was asked for arrives; its request is taken out of those in flight.
unfoldable pub drop_first : Text → List Text → List Text
drop_first t [] = []
drop_first t (a ∷ asked) = if text_eq a t then asked else a ∷ drop_first t asked

unfoldable pub preview_arrived : Text → Outcome Preview → Page → Page
unfolding drop_first
preview_arrived t (ok p) s = record s {
  preview = some p;
  preview_error = none;
  asked = drop_first t s.asked;
}
preview_arrived t (throw e) s = record s {
  preview = none;
  preview_error = some e;
  asked = drop_first t s.asked;
}

unfoldable pub can_redeem : Page → Bool
can_redeem s =
    elim s.preview [ none ↦ false | some p ↦ not p.already_redeemed_by_user ]
    && not s.redeeming
    && leb min_length (length (trim s.code))

-- `handleRedeem`, up to its request; the button is disabled unless `canRedeem`.
unfoldable pub click_redeem : Page → Page
unfolding can_redeem
click_redeem s =
    if can_redeem s
    then record s { redeeming = true; redeem_error = none; redeemed = trim s.code ∷ s.redeemed }
    else s

unfoldable pub redeem_arrived : Outcome (Unit {0}) → Page → Page
redeem_arrived (ok u) s = record s { redeeming = false; completed = s.completed + 1 }
redeem_arrived (throw e) s = record s { redeeming = false; redeem_error = some e }

-- `reset` is a change of the workspace or of the language, which runs the effect again; what is typed is
-- in upper case already.
pub data Event : Type 0 where
  typed : Text → Event
  reset waited : Event
  previewed : Text → Outcome Preview → Event
  clicked : Event
  answered : Outcome (Unit {0}) → Event

unfoldable pub step : Event → Page → Page
step (typed code) s = type_code code s
step reset s = preview_effect s
step waited s = fire_timer s
step (previewed t r) s = preview_arrived t r s
step clicked s = click_redeem s
step (answered r) s = redeem_arrived r s

unfoldable pub run : List Event → Page → Page
run [] s = s
run (e ∷ es) s = run es (step e s)

unfoldable pub opened : Page
opened = record {
  code = [];
  preview = none;
  preview_error = none;
  redeeming = false;
  redeem_error = none;
  timer = none;
  asked = [];
  redeemed = [];
  completed = 0;
}
