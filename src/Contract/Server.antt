-- ===== src/Contract/Server.antt =====
-- The HTTP server of cmd/server/main.go: what a request does to the database.
pub mod Calls
pub mod Writes
pub mod Reads
pub mod Reached
pub mod Guard
pub mod Routing
pub mod Requests
pub mod Untouched
pub mod Problems
