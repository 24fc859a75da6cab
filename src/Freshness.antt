-- ===== src/Freshness.antt =====
-- internal/freshness: the freshness gate and the header merge. The definitions are in the first
-- three children, and what is proved of them in the others.
pub mod Directives
pub mod Evaluate
pub mod Merge
pub mod Exact
pub mod Delta
pub mod Gate
pub mod Quoted
pub mod Occurs
pub mod Precedence
pub mod Merged
