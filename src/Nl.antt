-- ===== src/Nl.antt =====
-- arango_sparql/nl2sparql: from a question to a query that the translator accepts.
pub mod Repair
