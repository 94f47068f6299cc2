-- ===== src/Stream.antt =====
-- The event stream between the broker (hermes_a2a_gateway/broker.py) and the client
-- (hermes_a2a_gateway/client.py).
pub mod Lines
pub mod Printer
pub mod Reader
pub mod Numbers
pub mod RoundTrip
pub mod Broken
pub mod Polls
mod Tests
