-- ===== src/Warm.antt =====
-- The handler of server.go over the cache of s3_cache.go.
pub mod Services
pub mod Same
pub mod Apart
pub mod Second
