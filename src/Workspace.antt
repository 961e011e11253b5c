-- ===== src/Workspace.antt =====
-- The page of a workspace, frontend/src/pages/TenantPage.tsx.
pub mod NewAgent
pub mod Deletion
pub mod Page
pub mod Settings
pub mod Members
pub mod Dashboard
