-- ===== src/SafeCache.antt =====
-- src/safe_cache: the cache of whole responses.
pub mod Db
pub mod Orphans
pub mod Entries
pub mod Deletions
pub mod Invariant
pub mod Protection
pub mod Inspect
pub mod Verdict
mod Tests
