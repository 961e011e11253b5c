-- ===== src/Bridges.antt =====
-- The bridges of an agent, frontend/src/components/BridgesPanel.tsx.
pub mod Telegram
pub mod Activity
pub mod Whatsapp
pub mod Panel
