-- ===== src/Tunnel.antt =====
-- The SSH tunnel that the client's daemon owns (hermes_a2a_gateway/ssh_tunnel.py).
pub mod Config
pub mod Failures
pub mod Process
pub mod Inspections
pub mod Owned
pub mod Supervisor
pub mod Output
pub mod Fatal
pub mod Backoff
pub mod Confirmed
pub mod Inspected
pub mod Settled
mod Tests
