-- ===== src/Reduce.antt =====
-- src/reduce: shortening of tool outputs.
pub mod Regex
pub mod Lines
pub mod Filter
pub mod Storage
pub mod Commands
pub mod Contents
pub mod Transform
pub mod Example
mod Tests
