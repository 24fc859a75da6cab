-- ===== src/Oci/Transport.antt =====
-- oci_auth.go: `ociAuthTransport.RoundTrip`, `discoveryPath`, `tokenFetcher.getOrFetch` and
-- `fetchToken`, for one request at a time: the names of the children, passed on.
mod Wire
mod Fetch
mod Trip
unfoldable pub use Wire.*
unfoldable pub use Fetch.*
unfoldable pub use Trip.*
