-- ===== src/Broker.antt =====
-- The broker: its ledger (hermes_a2a_gateway/broker_store.py).
pub mod Model
pub mod Setup
pub mod Rows
pub mod Content
pub mod Snapshots
pub mod Artifacts
pub mod Accept
pub mod Finish
pub mod Dispatch
pub mod Cancel
pub mod Events
pub mod Calls
pub mod Spec
pub mod Refines
pub mod Lifecycle
pub mod EventLog
pub mod Dispatches
pub mod Quota
pub mod Cancellations
pub mod Replays
pub mod Settled
pub mod Pending
pub mod Receipts
pub mod Demo
mod Tests
