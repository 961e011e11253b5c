-- ===== src/Coupon.antt =====
-- The coupon page, frontend/src/pages/RedeemCouponPage.tsx.
pub mod Message
pub mod Page
pub mod Laws
pub mod Modal
