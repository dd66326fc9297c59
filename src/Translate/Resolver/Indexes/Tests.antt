-- ===== src/Translate/Resolver/Indexes/Tests.antt =====
-- A mapping whose indexes arango_sparql/translate/resolver.py analyses.
use arango_sparql_py.Base.{◌≡◌, true, not, ◌&&◌, none, some, [], ◌∷◌, String, refl}
use arango_sparql_py.Base.Eq.{nat_eq, list_eq}
use arango_sparql_py.Base.Lists.{any}
use arango_sparql_py.Base.Dict.{get}
use arango_sparql_py.Base.Json.{Json, Items, entries, as_fields, dict, items, truthy}
use arango_sparql_py.Base.Str.{codes}
use arango_sparql_py.Errors.{Error, Result}
use arango_sparql_py.Mapping.{MappingBundle, no_bundle, entities}
use arango_sparql_py.Translate.Resolver.Indexes.{
  UriIndexes, scanned, records_indexes, indexes_uri, any_indexes_uri, noted_all,
  analyze_uri_indexes,
}
use arango_sparql_py.Translate.Resolver.Indexes.Scanned.{
  is_stored, stores_uri, has_index, scanned-analyze_uri_indexes,
}
use Error.{type_error}
use Json.{text, array}
use Items.{nil, cons}
use Result.{ok, err}

abbrev entity : String → Json → Json
entity collection index = dict (
    (codes "collectionName", text (codes collection))
    ∷ (
      codes "properties",
      dict ((codes "id", dict ((codes "field", text (codes "_uri")) ∷ [])) ∷ []),
    )
    ∷ (codes "indexes", array (cons index nil))
    ∷ [])

abbrev index_of : Json → Json
index_of kind =
    dict ((codes "type", kind) ∷ (codes "fields", array (cons (text (codes "_uri")) nil)) ∷ [])

-- two collections, of which the second has an index that serves an equality
abbrev bundle : Json → MappingBundle
bundle kind = record no_bundle {
  physical_mapping =
      (
        codes "entities",
        dict (
            (codes "A", entity "as" (index_of (text (codes "geo"))))
            ∷ (codes "B", entity "bs" (index_of kind))
            ∷ []),
      )
      ∷ [];
  source = some (record { kind = codes "analyzer"; notes = none });
}

abbrev analysis : UriIndexes
analysis = record {
  collections = codes "bs" ∷ codes "as" ∷ [];
  carrying = codes "bs" ∷ codes "as" ∷ [];
  indexed = codes "bs" ∷ [];
}

analysis_test : analyze_uri_indexes (some (bundle (text (codes "hash")))) ≡ ok (some analysis)
unfolding analyze_uri_indexes records_indexes entities noted_all any_indexes_uri indexes_uri truthy
    items entries as_fields get
analysis_test = refl

unhashable_test : analyze_uri_indexes (some (bundle (array nil))) ≡ err type_error
unfolding analyze_uri_indexes records_indexes entities noted_all any_indexes_uri indexes_uri truthy
    items entries as_fields get
unhashable_test = refl

scanned_test : scanned analysis (codes "as") (codes "bs" ∷ []) ≡ true
unfolding scanned
scanned_test = refl

scanned-analyze_uri_indexes_example : scanned analysis (codes "as") (codes "bs" ∷ []) ≡ (
    any (λ e. is_stored (codes "as") e.1) (entities (bundle (text (codes "hash"))))
    && not (any (λ e. has_index (codes "as") e.1) (entities (bundle (text (codes "hash")))))
    && any
        (λ c. any (λ e. stores_uri c e.1) (entities (bundle (text (codes "hash")))))
        (codes "bs" ∷ []))
scanned-analyze_uri_indexes_example =
    scanned-analyze_uri_indexes (bundle (text (codes "hash"))) analysis analysis_test (codes "as")
      (codes "bs" ∷ [])
