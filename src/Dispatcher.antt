-- ===== src/Dispatcher.antt =====
-- The dispatcher's jobs (`BrokerDispatcher` of hermes_a2a_gateway/broker.py).
pub mod Jobs
pub mod Observe
pub mod Submit
pub mod Sure
pub mod Settles
pub mod Tables
pub mod Step
pub mod Keys
pub mod Tended
pub mod Turns
pub mod Loops
pub mod Rounds
pub mod Written
pub mod Closing
pub mod Closes
mod Tests
mod Demo
