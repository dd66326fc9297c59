-- ===== src/Lib.antt =====
-- A verification library for arango-sparql-py, the SPARQL to AQL transpiler and its service.
--
-- The program's parts and how they interact. arango_sparql/translate turns a SPARQL query, through
-- rdflib's algebra, into AQL: its visitor makes every change through one object, the AQL query
-- builder, which mints aliases and bind names, collects clauses, and renders the text with its bind
-- variables. arango_sparql/schema finds the mapping of a database and keeps it in a cache of two
-- tiers. arango_sparql/nl2sparql asks a language model for a query and repairs it until the
-- translator accepts it. arango_sparql/service serves all of it over HTTP, with sessions, rate limits,
-- background schema analysis and, under a control plane, a record of the questions asked.
-- arango_sparql/partition.py translates a part of a federated query, with seed rows from other parts.
--
-- Which file models which part:
-- - Base: shared names and lemmas. Base.Str is Python's `str` as a list of code points, Base.Dict
--   Python's `dict` as an association list in insertion order, Base.Eq the equality interface, Base.Lines
--   `textwrap.indent` and line splitting, Base.Numbers `int` where either sign may be given.
-- - Errors: arango_sparql/errors.py, the error classes as constructors, and results.
-- - Aql: arango_sparql/translate/builder.py. Aql.Names has the module-level functions on names
--   (`is_aql_identifier`, `object_key`, `attribute_ref`, `subject_ref`, …); Aql.State the class's fields
--   and the monad of its methods: a method is a function from the builder to a result and the builder
--   after it, so that what it changed before it raised stays changed. Aql.Mint has `fresh_alias`, `bind`,
--   `bind_collection`, `collection_bound_to`; Aql.Loops the methods that open a FOR; Aql.Clauses the
--   other body clauses, `sort` and `limit` (`let` is `let_clause`, `for_` is `for_collection`); Aql.Output
--   RETURN and the output modes; Aql.Finalize `finalize`, `create_child` and `absorb_child`. Aql.Keeps has
--   the rules by which a method keeps an invariant, Aql.Fresh the invariant of bind names and its proofs,
--   where Aql.Fresh.Program has every sequence of method calls as one type, sub-queries included.
-- - Schema: Schema.Drift is the comparison of fingerprints in arango_sparql/schema/fingerprint.py,
--   Schema.Persistent `ArangoSchemaCache` in arango_sparql/schema/persistent_cache.py (`get`, `set` and
--   `invalidate` are `stored_get`, `stored_set`, `stored_invalidate`), Schema.Cache `SchemaCache` in
--   arango_sparql/schema/cache.py (`get` and `put` are `get_entry` and `put_entry`), over what
--   Schema.Settings has of it; Schema.Lookups and Schema.Restart have the proofs.
-- - Service: Service.Warm is arango_sparql/service/schema_warm.py as a step relation on its shared maps
--   and running threads; Service.Limit and Service.Sessions are `_TokenBucket` and the session table of
--   arango_sparql/service/security.py.
-- - Mapping: arango_sparql/translate/mapping.py over JSON values (Base.Json); Mapping.Rename and
--   Mapping.Physical have the proofs that what was normalised is left alone. Schema.Scope is
--   arango_sparql/schema/graph_scope.py.
-- - Translate: what the visitor decides before it writes AQL. Translate.Order is `_iter_bgp_order` of
--   arango_sparql/translate/visitor.py, where Translate.Order.Places has the lemmas on places;
--   Translate.CertainErrors and Translate.CertainErrors.Unbound are
--   arango_sparql/translate/expression_errors.py, with SPARQL's evaluation, as far as errors go, in
--   Translate.CertainErrors.Semantics; Translate.Advisories is arango_sparql/translate/advisories.py with
--   the caches of the resolver.
-- - Translate.Rdf is what the resolver asks of rdflib's Graph, as an interface with its documented laws,
--   and lists of triples that keep them. Translate.Resolver is arango_sparql/translate/resolver.py:
--   `_resolve_class` (here resolve_class), Translate.Resolver.Properties `_resolve_property`,
--   Translate.Resolver.Supertypes `supertype_members`, Translate.Resolver.Families the shard families.
--   Translate.Synthesis has `_synthesize_graph_from_bundle`: the triples of the entities, and in
--   Translate.Synthesis.Bundle the rest with `from_mapping_bundle`; the modules below it prove what a class of
--   the synthesized graph resolves to, with what a spec states in Translate.Synthesis.Stated, on its own, and
--   what a resolved class has of it in Translate.Synthesis.Resolved. What a resolution returns is modelled without its cache, which is in
--   Translate.Advisories.
--   Translate.Resolver.Classes has what a class resolves to. Translate.Resolver.Surveys has what the resolver
--   asks of all classes (`declared` are the IRIs that a survey goes through), and in
--   Translate.Resolver.Surveys.Catalogue of all properties; Translate.Resolver.Indexes has `UriIndexes` and
--   `analyze_uri_indexes`.
-- - Service.Updates is arango_sparql/service/protocol/update_detect.py, its regular expressions as
--   recursive matchers: the comment pattern as a scanner that is inside a slot, a comment or neither.
--   Service.Negotiate is arango_sparql/service/protocol/negotiate.py.
--   Service.Recording is arango_sparql/service/recording.py, with the control plane's history as a
--   list of what is sent; Service.Recording.Log has the log that it stands for.
-- - Partition: the seed terms of arango_sparql/partition.py; Partition.Reader is a reader of SPARQL terms,
--   independent of it, Partition.Quoting, Partition.Words and Partition.Terms have the proofs.
-- - Nl: Nl.Repair is `RepairLoop` of arango_sparql/nl2sparql/repair.py.
--
-- Bounds and fuel. Numbers are unbounded, as Python's are. The loop of `_evict_lru` runs on fuel, one
-- for each session, which is enough for it to end. The walk of supertypes runs on fuel, one more than
-- there are classes, which is enough since the classes on its path differ. Every other loop is
-- structural.
--
-- What is a parameter: which characters above ASCII are printable (the Unicode data of Python), the
-- database server and its client, the wire form and the fingerprint of a mapping bundle, the language
-- model, the translator as the repair loop sees it, `int` as the environment's parser, and the opening
-- of a platform database, rdflib's graph, its Turtle parser, and, of the resolver's annotations,
-- `json.loads`, `json.dumps` and the repr of lists and dicts. What is not modelled: error messages and
-- logging; the rounding of floats, in whose place the rate limiter counts exactly; locks, except that
-- a locked region is one step; the visitor beyond the parts named above, schema acquisition and the
-- HTTP routes, which call what is modelled here.
pub mod Base
pub mod Errors
pub mod Nl
pub mod Schema
pub mod Service
pub mod Aql
pub mod Partition
pub mod Mapping
pub mod Translate
