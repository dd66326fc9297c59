-- ===== src/Translate/Resolver/Indexes.antt =====
-- What a schema analysis records of `_uri` and its indexes: `UriIndexes` and `analyze_uri_indexes` of
-- arango_sparql/translate/resolver.py. A set is a list; Python's TypeError of an unhashable value is kept.
pub mod Scanned
mod Tests
use arango_sparql_py.Base.{
  Bool, true, false, not, ◌&&◌, ◌||◌, Option, none, some, List, [], ◌∷◌, String, map,
}
use arango_sparql_py.Base.Tests.{if◌then◌else◌}
use arango_sparql_py.Base.Eq.{◌==◌, nat_eq, list_eq}
use arango_sparql_py.Base.Lists.{any, contains}
use arango_sparql_py.Base.Dict.{Dict, get}
use arango_sparql_py.Base.Json.{Json, Items, entries}
use arango_sparql_py.Base.Str.{Str, codes}
use arango_sparql_py.Errors.{Error, Result, ◌>>=◌}
use arango_sparql_py.Mapping.{MappingBundle, MappingSource, entities}
use arango_sparql_py.Schema.Scope.{same_text, non_empty, text_of}
use arango_sparql_py.Translate.Synthesis.{iterated_or_none}
use Json.{null, boolean, integer, float, text, array, object}
use Items.{nil, cons}
use Error.{type_error}
use Result.{ok, err}

-- `_EQUALITY_INDEX_TYPES`
abbrev pub equality_index_types : List Str
equality_index_types = map codes ("persistent" ∷ "hash" ∷ "skiplist" ∷ [])

pub record UriIndexes : Type 0 where
  pub collections : List Str
  pub carrying : List Str
  pub indexed : List Str

-- `UriIndexes.scanned`
unfoldable pub scanned : UriIndexes → Str → List Str → Bool
scanned u earlier later =
    contains earlier u.collections
    && not (contains earlier u.indexed)
    && any (λ c. contains c u.carrying) later

abbrev pub is_analyzed : Option MappingSource → Bool
is_analyzed none = false
is_analyzed (some source) = source.kind == codes "analyzer"

abbrev pub is_text : String → Option Json → Bool
is_text word none = false
is_text word (some j) = same_text (codes word) j

abbrev pub is_reverse : Option Json → Bool
is_reverse (some (object fs)) =
    is_text "arango-schema-analyzer" (get (codes "producer") (entries fs))
    && is_text "reverse" (get (codes "direction") (entries fs))
is_reverse _ = false

-- `_records_indexes`
unfoldable pub records_indexes : MappingBundle → Bool
records_indexes b = is_analyzed b.source || is_reverse (get (codes "csiProvenance") b.metadata)

-- whether a value is in `_EQUALITY_INDEX_TYPES`
abbrev pub serves_equality : Option Json → Result Bool
serves_equality (some (text s)) = ok (contains s equality_index_types)
serves_equality (some (array js)) = err type_error
serves_equality (some (object fs)) = err type_error
serves_equality _ = ok false

abbrev pub starts_with_uri : Option Json → Bool
starts_with_uri (some (array (cons j js))) = same_text (codes "_uri") j
starts_with_uri _ = false

unfoldable pub indexes_uri : Json → Result Bool
indexes_uri (object fs) = serves_equality (get (codes "type") (entries fs)) >>= λ serves.
    ok (serves && starts_with_uri (get (codes "fields") (entries fs)))
indexes_uri _ = ok false

unfoldable pub any_indexes_uri : List Json → Result Bool
any_indexes_uri [] = ok false
any_indexes_uri (j ∷ js) =
    indexes_uri j >>= λ here. any_indexes_uri js >>= λ later. ok (here || later)

abbrev pub is_uri_field : Json → Bool
is_uri_field (object fs) = is_text "_uri" (get (codes "field") (entries fs))
is_uri_field _ = false

abbrev pub maps_uri : Option Json → Bool
maps_uri (some (object fs)) = any (λ e. is_uri_field e.1) (entries fs)
maps_uri _ = false

abbrev pub noted : Bool → Str → List Str → List Str
noted test c cs = if test then c ∷ cs else cs

abbrev pub with_entity : Dict Str Json → Str → UriIndexes → Bool → UriIndexes
with_entity entity c u is_indexed = record {
  collections = c ∷ u.collections;
  carrying = noted (maps_uri (get (codes "properties") entity)) c u.carrying;
  indexed = noted is_indexed c u.indexed;
}

abbrev pub entity_noted : Dict Str Json → Option Str → UriIndexes → Result UriIndexes
entity_noted entity none u = ok u
entity_noted entity (some c) u = iterated_or_none (get (codes "indexes") entity) >>= λ indexes.
    any_indexes_uri indexes >>= λ is_indexed. ok (with_entity entity c u is_indexed)

-- the collection of an entity that is a dict
abbrev pub collection_named : Dict Str Json → Option Str
collection_named entity = non_empty (text_of (get (codes "collectionName") entity))

unfoldable pub noted_all : Dict Str Json → UriIndexes → Result UriIndexes
noted_all [] u = ok u
noted_all ((name, object fs) ∷ d) u =
    entity_noted (entries fs) (collection_named (entries fs)) u >>= noted_all d
noted_all ((name, j) ∷ d) u = noted_all d u

abbrev pub nothing_noted : UriIndexes
nothing_noted = record { collections = []; carrying = []; indexed = [] }

abbrev pub some_indexes : UriIndexes → Result (Option UriIndexes)
some_indexes u = ok (some u)

unfoldable pub analyze_uri_indexes : Option MappingBundle → Result (Option UriIndexes)
analyze_uri_indexes none = ok none
analyze_uri_indexes (some b) =
    if records_indexes b then noted_all (entities b) nothing_noted >>= some_indexes else ok none
