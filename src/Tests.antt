-- ===== src/Tests.antt =====
-- Runs of the engine at concrete inputs.
pub mod Samples
mod Histories
mod Calls
mod Waits
mod Reads
mod Requests
mod Files
mod Moves
mod Deliveries
