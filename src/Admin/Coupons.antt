-- ===== src/Admin/Coupons.antt =====
-- `CouponsTab` of frontend/src/pages/AdminPage.tsx: the status of a coupon, the list with its switch, the form for a new
-- coupon and the dialog that grants a plan. Times are milliseconds; `new Date(text)` is a parameter, and none where the
-- date is invalid.
pub mod Status
use agentleh_app.Base.{
  ℕ, ◌+◌, Bool, true, false, not, ◌&&◌, List, [], ◌∷◌, ◌++◌, Option, none, some, Text, codes,
  is_empty, trim, ltb, leb, ◌==◌, if◌then◌else◌,
}
use agentleh_app.Js.{Js, Outcome, ok, throw, Error}

-- What the tab reads of `AdminCouponRow`.
pub record Coupon : Type 0 where
  pub id : ℕ
  pub code : Text
  pub disabled_at : Option Text
  pub valid_from : Option Text
  pub valid_until : Option Text
  pub max_redemptions : Option ℕ
  pub redemption_count : ℕ

pub data CouponStatus : Type 0 where
  active disabled expired exhausted pending : CouponStatus

-- A text or null is truthy.
abbrev pub is_set : Option Text → Bool
is_set none = false
is_set (some t) = not (is_empty t)

abbrev pub is_before : Option ℕ → ℕ → Bool
is_before none now = false
is_before (some t) now = ltb t now

abbrev pub is_after : Option ℕ → ℕ → Bool
is_after none now = false
is_after (some t) now = ltb now t

abbrev pub time_of : (Text → Option ℕ) → Option Text → Option ℕ
time_of parse none = none
time_of parse (some t) = parse t

abbrev pub is_used_up : Option ℕ → ℕ → Bool
is_used_up none n = false
is_used_up (some m) n = leb m n

-- `couponStatus`
unfoldable pub coupon_status : (Text → Option ℕ) → ℕ → Coupon → CouponStatus
coupon_status parse now c =
    if is_set c.disabled_at
    then disabled
    else if is_set c.valid_until && is_before (time_of parse c.valid_until) now
    then expired
    else if is_set c.valid_from && is_after (time_of parse c.valid_from) now
    then pending
    else if is_used_up c.max_redemptions c.redemption_count
    then exhausted
    else active

pub record Tab : Type 0 where
  pub coupons : List Coupon
  pub loading : Bool
  pub shown_error : Option Error
  pub show_create : Bool
  pub redemptions_of : Option Coupon
  pub toggles : List (ℕ × Bool)  -- what `adminSetCouponDisabled` was given, the latest first
  pub loads : ℕ  -- calls of `adminListCoupons`
  pub alerts : ℕ

-- `load`, up to its request, and the rest of it.
unfoldable pub load : Tab → Tab
load s = record s { loading = true; shown_error = none; loads = s.loads + 1 }

unfoldable pub load_answered : Outcome (List Coupon) → Tab → Tab
load_answered (ok cs) s = record s { coupons = cs; loading = false }
load_answered (throw e) s = record s { shown_error = some e; loading = false }

-- `handleToggle`, with the answer of the browser's dialog.
unfoldable pub handle_toggle : Coupon → Bool → Tab → Tab
handle_toggle c agreed s =
    if agreed then record s { toggles = (c.id, not (is_set c.disabled_at)) ∷ s.toggles } else s

unfoldable pub toggle_answered : Outcome (Unit {0}) → Tab → Tab
unfolding load
toggle_answered (ok u) s = load s
toggle_answered (throw e) s = record s { alerts = s.alerts + 1 }

-- `onCreated`
unfoldable pub on_created : Tab → Tab
unfolding load
on_created s = load (record s { show_create = false })

-- The form of `CouponCreateForm`.
pub record Form : Type 0 where
  pub code : Text
  pub plan_id : Text
  pub duration_days : ℕ
  pub max_redemptions : Text
  pub valid_until : Text
  pub one_per_user : Bool
  pub notes : Text
  pub submitting : Bool
  pub form_error : Option Error
  pub created_code : Option Text

-- What `adminCreateCoupon` is given.
pub record NewCoupon : Type 0 where
  pub code : Option Text
  pub plan_id : Text
  pub duration_days : ℕ
  pub max_redemptions : Option Js
  pub valid_until : Option Text
  pub one_per_user : Bool
  pub notes : Text

-- The body of `submit`: `number` is `Number(text)`, and `iso` is `new Date(text).toISOString()`, which may throw.
unfoldable pub new_coupon : (Text → Js) → (Text → Outcome Text) → Form → Outcome NewCoupon
new_coupon number iso f =
    let body : Option Text → NewCoupon = λ (until : Option Text). (record {
      code = if is_empty (trim f.code) then none else some (trim f.code);
      plan_id = f.plan_id;
      duration_days = f.duration_days;
      max_redemptions =
          if is_empty (trim f.max_redemptions) then none else some (number f.max_redemptions);
      valid_until = until;
      one_per_user = f.one_per_user;
      notes = trim f.notes;
    }) in
    if is_empty f.valid_until
    then ok (body none)
    else elim (iso (f.valid_until ++ codes "T23:59:59")) [
      | ok t ↦ ok (body (some t))
      | throw e ↦ throw e
    ]

-- The rest of `submit`.
unfoldable pub submitted : Outcome Text → Form → Form
submitted (ok code) f = record f {
  created_code = some code;
  code = [];
  max_redemptions = [];
  valid_until = [];
  notes = [];
  submitting = false;
}
submitted (throw e) f = record f { form_error = some e; submitting = false }

-- `submit`, up to its request, which is not made where the date is invalid.
unfoldable pub submit : (Text → Js) → (Text → Outcome Text) → Form → Form × Option NewCoupon
unfolding new_coupon submitted
submit number iso f =
    let busy = record f { submitting = true; form_error = none } in
    elim (new_coupon number iso f) [
      | ok body ↦ (busy, some body)
      | throw e ↦ (submitted (throw e) busy, none)
    ]
