-- ===== src/Settings.antt =====
-- The settings of the broker and of the client, and what they are accepted for
-- (hermes_a2a_gateway/broker_settings.py and client_settings.py).
pub mod Policy
pub mod Secure
pub mod Transport
pub mod Checks
pub mod LocalEnd
pub mod Private
mod Tests
