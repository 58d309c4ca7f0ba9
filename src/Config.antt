-- ===== src/Config.antt =====
-- src/config and src/profiles: the configuration, its validation, the resolution of the default
-- integration, and the migration of the old profiles.
pub mod Types
pub mod Profiles
pub mod Validate
pub mod Resolver
pub mod Migration
pub mod Load
pub mod Lookup
pub mod Canonical
pub mod Migrated
pub mod RoundTrip
mod Tests
