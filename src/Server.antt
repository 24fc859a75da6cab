-- ===== src/Server.antt =====
-- server.go and http_caching.go: the caching handler.
pub mod World
pub mod Validators
pub mod Target
pub mod Fetch
pub mod Serve
pub mod Trace
pub mod Served
pub mod Touch
pub mod Conditional
pub mod Requests
pub mod Replies
pub mod Asked
pub mod Legacy
