-- ===== src/Bridge.antt =====
-- The client's daemon (`ClientService` of hermes_a2a_gateway/client.py) between the broker, the ledger of
-- the client and the queue of the host.
pub mod Jobs
pub mod Sync
pub mod Deliveries
pub mod Tools
pub mod Tasks
pub mod Once
pub mod Waits
mod Tests
