-- ===== src/Integrations.antt =====
-- The Google connection of an agent, frontend/src/components/IntegrationsPanel.tsx.
pub mod Panel
pub mod Timers
pub mod Deadline
pub mod Cancel
pub mod Tab
