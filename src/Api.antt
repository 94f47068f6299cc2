-- ===== src/Api.antt =====
-- The HTTP side of the broker (hermes_a2a_gateway/broker.py).
pub mod Bodies
pub mod Authentication
pub mod Replies
pub mod Handlers
pub mod Guarded
mod Tests
