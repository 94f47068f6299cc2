-- ===== src/Native.antt =====
-- The host's queue behind its subprocess: `NativeQueueDelivery` of hermes_a2a_gateway/native_delivery.py.
pub mod Session
pub mod Queue
pub mod Adds
pub mod Pages
pub mod Crashes
mod Tests
