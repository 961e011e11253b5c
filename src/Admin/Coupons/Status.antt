-- ===== src/Admin/Coupons/Status.antt =====
-- How the status of a coupon changes with the time.
use agentleh_app.Base.{ℕ, false, ◌&&◌, Option, Text, ◌≡◌}
use agentleh_app.Admin.Coupons.{
  Coupon, CouponStatus, active, disabled, expired, exhausted, pending, is_before, is_after, time_of,
  is_set, is_used_up,
}

-- The stages of a coupon that is not disabled.
abbrev pub stage : CouponStatus → ℕ
stage pending = 0
stage active = 1
stage exhausted = 1
stage expired = 2
stage disabled = 3

-- A coupon that is not disabled, whose last day has not passed, whose first day has come, and with uses left; a date that is
-- missing or not valid sets no limit.
abbrev pub IsOpen : (Text → Option ℕ) → ℕ → Coupon → Type 0
IsOpen parse now c =
    (is_set c.disabled_at ≡ false)
    × ((is_set c.valid_until && is_before (time_of parse c.valid_until) now) ≡ false)
    × ((is_set c.valid_from && is_after (time_of parse c.valid_from) now) ≡ false)
    × (is_used_up c.max_redemptions c.redemption_count ≡ false)
