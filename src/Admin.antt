-- ===== src/Admin.antt =====
-- The pages of the administration, frontend/src/pages/AdminPage.tsx.
pub mod State
pub mod Page
pub mod Runs
pub mod Wanted
pub mod Permits
pub mod Details
pub mod Requests
pub mod Address
pub mod Plans
pub mod Charts
pub mod Users
pub mod Cards
pub mod Stats
pub mod Coupons
pub mod Tenants
pub mod Grant
