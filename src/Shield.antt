-- ===== src/Shield.antt =====
-- src/shield: single-flight coalescing of identical requests.
pub mod Broadcast
pub mod Coalesce
pub mod Fingerprint
pub mod Channel
mod Tests
