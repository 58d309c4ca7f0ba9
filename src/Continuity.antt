-- ===== src/Continuity.antt =====
-- src/continuity: what a session leaves for the next one.
pub mod Observer
pub mod Observed
pub mod Extracted
pub mod Checkpoints
mod Tests
