-- ===== src/Meter.antt =====
-- src/meter: the prices of requests, and the ledger of them.
pub mod Pricing
pub mod Ledger
mod Tests
