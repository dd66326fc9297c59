-- ===== src/Translate/Resolver/Surveys.antt =====
-- What arango_sparql/translate/resolver.py asks of all classes or properties of an ontology at once. A
-- survey is quiet: it leaves the caches and the advisories as they were, which are in Translate.Advisories.
pub mod Declared
pub mod Styles
pub mod Tenants
pub mod Catalogue
pub mod Entries
pub mod Attributes
pub mod Stores
mod Tests
use arango_sparql_py.Base.{
  Bool, true, not, ◌&&◌, ◌||◌, Option, none, some, List, [], ◌∷◌, ◌++◌, String, map,
}
use arango_sparql_py.Base.Tests.{if◌then◌else◌, is_some}
use arango_sparql_py.Base.Eq.{◌==◌, nat_eq, list_eq}
use arango_sparql_py.Base.Lists.{all, is_nil, keep}
use arango_sparql_py.Base.Order.{nat_order, list_order, sorted}
use arango_sparql_py.Base.Dict.{Dict, get, put, set_default}
use arango_sparql_py.Base.Json.{Json}
use arango_sparql_py.Base.Str.{Str, codes}
use arango_sparql_py.Aql.Names.{parse_flag}
use arango_sparql_py.Errors.{Error, Result, ◌>>=◌}
use arango_sparql_py.Translate.Rdf.{Rdf}
use arango_sparql_py.Translate.Resolver.{
  a_type, owl, iri_texts, distinct, given_text, is_style, or_default, physical_string, has_type,
  resolve_class,
}
use arango_sparql_py.Translate.Resolver.Classes.{ResolvedClass, plain_class, Fallback, Config}
use arango_sparql_py.Translate.Resolver.Properties.{
  ResolvedProperty, resolve_property, class_list, physical_iris, true_flag,
}
use Error.{schema_error}
use Result.{ok, err}

abbrev pub is_guarded : ResolvedClass → Bool
is_guarded c =
    given_text c.tenant_field && not (is_style "UNION" c.style) && not (is_nil c.collection)

abbrev pub if_guarded : Option ResolvedClass → List ResolvedClass
if_guarded none = []
if_guarded (some c) = if is_guarded c then c ∷ [] else []

-- the table of a class with its columns
abbrev pub table_of : ResolvedClass → List Str
table_of c =
    c.collection ∷ c.subject_column ∷ c.predicate_column ∷ c.object_uri_column
    ∷ c.object_value_column ∷ []

unfoldable pub layout : ResolvedClass → List Str
layout c = table_of c ++ or_default (codes "None") c.tenant_field ∷ []

-- `TRIPLE_STORE_IRI`
abbrev pub triple_store_iri : Str
triple_store_iri = codes "urn:arango-sparql:triple-store"

abbrev pub is_rpt : ResolvedClass → Bool
is_rpt c = is_style "RPT" c.style

-- the one table of all classes
abbrev pub one_table : List ResolvedClass → Option ResolvedClass
one_table [] = none
one_table (c ∷ cs) =
    if all is_rpt (c ∷ cs) && all (λ d. layout d == layout c) cs
    then some (record c { class_iri = triple_store_iri })
    else none

-- `_triple_store_checked` and `_triple_store_class`
pub record TripleStore : Type 0 where
  pub checked : Bool
  pub found : Option ResolvedClass

abbrev pub answer_store :
    TripleStore → Result (List ResolvedClass) → Result (Option ResolvedClass) × TripleStore
answer_store t (ok cs) = (ok (one_table cs), record t { found = one_table cs })
answer_store t (err e) = (err e, t)

-- `warn_undeclared_range`, which names nothing that is read instead, and `warn_unindexed_uri`
abbrev pub undeclared_range : Str → Fallback
undeclared_range k = record {
  code = codes "W_SCHEMA_UNDECLARED_RANGE_CLASS";
  of_iri = k;
  instead = [];
}

abbrev pub unindexed_uri : Str → Fallback
unindexed_uri collection = record {
  code = codes "W_SCHEMA_URI_INDEX_MISSING";
  of_iri = collection;
  instead = collection;
}

-- what `described_sources` has found so far
pub record Sources : Type 0 where
  pub collections : List Str
  pub tables : Dict (List Str) ResolvedClass

abbrev pub family_or_self : ResolvedClass → Option (List Str) → List Str
family_or_self c none = c.collection ∷ []
family_or_self c (some []) = c.collection ∷ []
family_or_self c (some (n ∷ ns)) = n ∷ ns

abbrev pub source_added : ResolvedClass → Sources → Sources
source_added c s =
    if is_style "UNION" c.style || is_nil c.collection
    then s
    else if is_rpt c
    then record s { tables = (set_default (table_of c) c s.tables).1 }
    else record s { collections = family_or_self c c.shard_family ++ s.collections }

abbrev pub with_default : Bool → Str → Sources → List Str
with_default strict default_collection s =
    if not strict && (not (is_nil s.collections) || is_nil s.tables)
    then default_collection ∷ s.collections
    else s.collections

abbrev pub or_nothing : Option ResolvedClass → List ResolvedClass
or_nothing none = []
or_nothing (some c) = c ∷ []

abbrev pub classes_at : List (List Str) → Dict (List Str) ResolvedClass → List ResolvedClass
classes_at [] tables = []
classes_at (t ∷ ts) tables = or_nothing (get t tables) ++ classes_at ts tables

abbrev pub source_if_resolved : Result ResolvedClass → Sources → Result Sources
source_if_resolved (ok c) s = ok (source_added c s)
source_if_resolved (err schema_error) s = ok s
source_if_resolved (err e) s = err e

module _ (r : Rdf) (g : r.Graph) where
  -- the IRIs that the ontology gives a type, in order
  unfoldable pub declared : String → List Str
  declared name = sorted (iri_texts (r.subjects a_type (owl name) g))

  unfoldable pub declared_once : String → List Str
  declared_once name = sorted (distinct (iri_texts (r.subjects a_type (owl name) g)))

  unfoldable pub is_reified_entry : Str → Bool
  is_reified_entry k = true_flag (parse_flag (physical_string r g k "reifiedEdge"))

  unfoldable pub declares_class : Str → Bool
  declares_class k = has_type r g k "Class" || is_reified_entry k

  abbrev pub located_class : Str → Str → Option Str → Option ResolvedClass
  located_class k tenant none = none
  located_class k tenant (some collection) =
      if is_nil collection
      then none
      else some (record (plain_class k collection) {
        tenant_field = some tenant;
        tenant_entity = physical_string r g k "tenantEntity";
      })

  -- a class that declares a tenant field, as it resolves, or by its `phys:collectionName`
  abbrev pub class_or_located : Str → Str → Result ResolvedClass → Result (Option ResolvedClass)
  class_or_located k tenant (ok c) = ok (some c)
  class_or_located k tenant (err schema_error) =
      ok (located_class k tenant (physical_string r g k "collectionName"))
  class_or_located k tenant (err e) = err e

  module _ (cfg : Config) where
    abbrev pub tenant_class : Str → Option Str → Result (List ResolvedClass)
    tenant_class k none = ok []
    tenant_class k (some tenant) =
        class_or_located k tenant (resolve_class r g cfg k).1 >>= λ o. ok (if_guarded o)

    unfoldable pub tenant_classes : List Str → Result (List ResolvedClass)
    tenant_classes [] = ok []
    tenant_classes (k ∷ ks) = tenant_class k (physical_string r g k "tenantField") >>= λ found.
        tenant_classes ks >>= λ rest. ok (found ++ rest)

    unfoldable pub tenant_scoped_classes : Bool → Result (List ResolvedClass)
    tenant_scoped_classes rpt = tenant_classes (declared "Class") >>= λ cs.
        ok (keep (λ c. if is_rpt c then rpt else not rpt) cs)

    unfoldable pub resolve_all : List Str → Result (List ResolvedClass)
    resolve_all [] = ok []
    resolve_all (k ∷ ks) = (resolve_class r g cfg k).1 >>= λ c. resolve_all ks >>= λ cs. ok (c ∷ cs)

    unfoldable pub triple_store_class : TripleStore → Result (Option ResolvedClass) × TripleStore
    triple_store_class t =
        if t.checked
        then (ok t.found, t)
        else answer_store (record t { checked = true }) (resolve_all (declared "Class"))

    unfoldable pub described : List Str → Sources → Result Sources
    described [] s = ok s
    described (k ∷ ks) s = source_if_resolved (resolve_class r g cfg k).1 s >>= described ks

    -- `described_sources`, with `strict_subject_resolution`
    unfoldable pub described_sources : Bool → Result (List Str × List ResolvedClass)
    described_sources strict =
        described (declared "Class") (record { collections = []; tables = [] }) >>= λ s. ok (
          sorted (distinct (with_default strict cfg.default_collection s)),
          classes_at (sorted (map (λ t. t.0) s.tables)) s.tables,
        )

    unfoldable pub undeclared_class_fallback : Str → Fallback × ResolvedClass
    undeclared_class_fallback k = (
      record {
        code = codes "W_SCHEMA_UNDECLARED_DOMAIN_CLASS";
        of_iri = k;
        instead = cfg.default_collection;
      },
      record (plain_class k cfg.default_collection) {
        shard_family = get cfg.default_collection cfg.families;
      },
    )
