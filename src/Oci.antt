-- ===== src/Oci.antt =====
-- oci_auth.go: the transport that answers OCI Bearer challenges.
pub mod Challenge
pub mod Repository
pub mod Tokens
pub mod Transport
pub mod Sweeper
pub mod Warm
pub mod Swept
pub mod Granted
pub mod Second
pub mod Honest
pub mod Trusted
pub mod Calls
pub mod TokenCalls
pub mod RequestCalls
pub mod Expiry
pub mod Paths
