-- ===== src/Schema.antt =====
-- arango_sparql/schema: the two tiers of the schema-mapping cache.
pub mod Drift
pub mod Persistent
pub mod Settings
pub mod Cache
pub mod Lookups
pub mod Restart
pub mod Scope
mod Tests
