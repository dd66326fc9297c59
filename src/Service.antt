-- ===== src/Service.antt =====
-- arango_sparql/service: background schema warming, sessions and rate limits.
pub mod Warm
pub mod Limit
pub mod Sessions
pub mod Updates
pub mod Negotiate
pub mod Recording
