-- ===== src/Translate.antt =====
-- arango_sparql/translate around the builder: the parts of the visitor that decide before AQL is
-- written, over RDF terms as rdflib gives them.
pub mod Advisories
pub mod Order
pub mod Rdf
pub mod Resolver
pub mod Synthesis
pub mod CertainErrors
use arango_sparql_py.Base.{Option, none, some, Bool, true, false}
use arango_sparql_py.Base.Str.{Str, codes}

-- A literal has its text, datatype and language; a property path, its text.
pub data Term : Type 0 where
  iri : Str → Term
  blank : Str → Term
  variable : Str → Term
  literal : Str → Option Str → Option Str → Term
  path : Str → Term

pub record Triple : Type 0 where
  pub subject : Term
  pub predicate : Term
  pub object : Term

-- `str(term)`
abbrev pub term_text : Term → Str
term_text (iri s) = s
term_text (blank s) = s
term_text (variable s) = s
term_text (literal s datatype lang) = s
term_text (path s) = s

abbrev pub rdf_type : Str
rdf_type = codes "http://www.w3.org/1999/02/22-rdf-syntax-ns#type"
