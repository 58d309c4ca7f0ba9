-- ===== src/Efficiency.antt =====
-- src/efficiency: the instructions that are put into a request's system prompt.
pub mod Inject
pub mod Prompt
mod Tests
