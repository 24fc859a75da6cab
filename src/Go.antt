-- ===== src/Go.antt =====
-- What the program uses of Go's standard library.
pub mod Strings
pub mod Header
pub mod Url
pub mod Separate
pub mod Escape
pub mod Canonical
