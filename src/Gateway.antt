-- ===== src/Gateway.antt =====
-- src/gateway: the limits under which requests are read, forwarded and cached.
pub mod Bodies
pub mod Limits
pub mod Rewrite
pub mod Reuse
pub mod Handler
pub mod Messages
mod Tests
