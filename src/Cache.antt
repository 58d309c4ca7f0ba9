-- ===== src/Cache.antt =====
-- src/cache: where `cache_control` breakpoints go in a request body, and putting them there.
pub mod Breakpoint
pub mod Inject
pub mod Prefix
pub mod Identity
mod Tests
