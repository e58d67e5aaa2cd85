-- ===== src/Syncer.antt =====
-- eth/syncer/: the contract's events, their parsing, and the state that they are synced to.
pub mod Events
pub mod Parser
pub mod State
pub mod Overlay
pub mod Channel
mod Tests
