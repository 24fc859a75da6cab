-- ===== src/S3.antt =====
-- s3_cache.go and s3_metadata.go: the cache in S3.
pub mod Key
pub mod KeyUnique
pub mod CopySource
pub mod Metadata
pub mod MetadataText
pub mod MetadataTrip
pub mod Api
pub mod Store
pub mod LowerNames
pub mod PathBytes
pub mod Stored
pub mod Touched
pub mod Missed
pub mod Looked
pub mod Fields
