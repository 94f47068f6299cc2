-- ===== src/Broker/Refines.antt =====
-- The transactions of broker_store.py are sequences of the writes of Broker/Spec.
pub mod Reading
pub mod Ends
pub mod Admission
pub mod Claims
pub mod Log
pub mod Histories
