-- ===== src/Peer.antt =====
-- The client of the Hermes peer (hermes_a2a_gateway/a2a.py) and its settings.
pub mod Json
pub mod Urls
pub mod Requests
pub mod Calls
pub mod Once
pub mod Guarded
pub mod Tasks
pub mod Parts
pub mod Chunks
pub mod Handle
pub mod Updates
pub mod Joined
pub mod Envelopes
mod Tests
