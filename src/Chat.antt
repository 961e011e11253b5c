-- ===== src/Chat.antt =====
-- The chat pane, frontend/src/components/ChatPane.tsx.
pub mod Message
pub mod Pane
pub mod Frames
pub mod Socket
pub mod Bubbles
pub mod Connection
pub mod Invariant
pub mod Delta
pub mod Waiting
