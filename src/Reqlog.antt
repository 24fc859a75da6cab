-- ===== src/Reqlog.antt =====
-- internal/reqlog: what is logged of a request, and the status of its reply.
pub mod Headers
pub mod Safe
pub mod Writer
pub mod Logged
