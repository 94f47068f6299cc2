-- ===== src/Client.antt =====
-- The client: its ledger (hermes_a2a_gateway/client_store.py).
pub mod Texts
pub mod Model
pub mod Setup
pub mod Commands
pub mod Snapshots
pub mod Delivery
pub mod Calls
pub mod Onward
pub mod Enqueued
pub mod Demo
mod Tests
