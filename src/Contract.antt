-- ===== src/Contract.antt =====
-- What each function of the engine and of its server promises its callers.
pub mod Leases
pub mod Endings
pub mod Checkpoints
pub mod Races
pub mod Signals
pub mod Timers
pub mod Ticks
pub mod Workflows
pub mod Retries
pub mod Faults
pub mod Errors
pub mod Events
pub mod Draining
pub mod Refusals
pub mod Opening
pub mod Readers
pub mod Averages
pub mod Server
