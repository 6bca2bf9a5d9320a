-- ===== src/Store.antt =====
-- The database that every component works on, and the calls of database/sql.
pub mod Db
pub mod Lookup
pub mod Rows
pub mod Session
pub mod Platform
pub mod Atomic
