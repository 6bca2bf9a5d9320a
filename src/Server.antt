-- ===== src/Server.antt =====
-- cmd/server/main.go: the HTTP server. A request reaches a handler by the routes of `main`, behind
-- `requireBearer` where a key is set.
pub mod Bodies
pub mod Replies
pub mod Handlers
pub mod Readers
pub mod Routes
pub mod Serve
