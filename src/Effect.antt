-- ===== src/Effect.antt =====
-- What each function does when the driver refuses nothing, as a change of the database.
pub mod Workflows
pub mod Leases
pub mod Steps
pub mod Signals
pub mod Timers
