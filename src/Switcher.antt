-- ===== src/Switcher.antt =====
-- The creation of a workspace in frontend/src/components/TenantSwitcher.tsx (`Menu`) and in
-- frontend/src/components/MobileDrawer.tsx (`Drawer`), which differ in what a form keeps.
pub mod Menu
pub mod Drawer
pub mod Twice
