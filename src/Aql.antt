-- ===== src/Aql.antt =====
-- arango_sparql/translate/builder.py: the parameterised AQL query builder.
pub mod Names
pub mod State
pub mod Mint
pub mod Loops
pub mod Clauses
pub mod Output
pub mod Finalize
pub mod Keeps
pub mod Fresh
mod Tests
mod Witnesses
