-- ===== src/Fleet.antt =====
-- Several instances of the handler on one bucket (server.go with s3_cache.go): their writes, lookups
-- and touches in any order.
pub mod Steps
pub mod Consistent
pub mod Labels
