-- ===== src/Matcher.antt =====
-- internal/matcher: which addresses are watched. The Bloom filters stand before the hot sets in
-- Redis, and these before the database.
pub mod Defs
pub mod Filters
pub mod Laws
pub mod Load
pub mod Snapshot
