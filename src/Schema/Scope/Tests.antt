-- ===== src/Schema/Scope/Tests.antt =====
-- A bundle of two applications, scoped by arango_sparql/schema/graph_scope.py.
use arango_sparql_py.Base.{String, ◌≡◌, none, some, [], ◌∷◌, refl}
use arango_sparql_py.Base.Lists.{keep}
use arango_sparql_py.Base.Dict.{get, put}
use arango_sparql_py.Base.Json.{Json, Items, dict, as_fields, entries, items}
use arango_sparql_py.Base.Str.{codes}
use Json.{text, array}
use Items.{nil, cons}
use arango_sparql_py.Mapping.{MappingBundle, no_bundle, entities, relationships}
use arango_sparql_py.Schema.Scope.{
  GraphDb, tags, tagged, vertex_collection, edge_collection, membership_collections,
  live_graph_collections, kept_names, filter_bundle, scope_bundle_to_graph,
}
use arango_sparql_py.Schema.Scope.Exact.{
  in_graph, scope_bundle_to_graph-exact, untagged_graph_is_empty,
}

abbrev spec : String → String → Json
spec collection graph = dict (
    (codes "collectionName", text (codes collection))
    ∷ (codes "graphs", array (cons (text (codes graph)) nil))
    ∷ [])

abbrev shared : MappingBundle
shared = record no_bundle {
  physical_mapping =
      (
        codes "entities",
        dict ((codes "Person", spec "people" "social") ∷ (codes "Part", spec "parts" "stock") ∷ []),
      )
      ∷ (codes "relationships", dict [])
      ∷ [];
}

abbrev offline : GraphDb
offline = record { has_graph = λ g. none; graph = λ g. none }

scope_bundle_to_graph-exact_example :
    (entities (scope_bundle_to_graph offline shared (some (codes "social")))
      ≡ keep (in_graph vertex_collection (codes "people" ∷ [])) (entities shared))
    × (relationships (scope_bundle_to_graph offline shared (some (codes "social")))
        ≡ keep (in_graph edge_collection []) (relationships shared))
    × ((scope_bundle_to_graph offline shared (some (codes "social"))).owl_turtle ≡ none)
    × ((scope_bundle_to_graph offline shared (some (codes "social"))).source ≡ none)
unfolding membership_collections live_graph_collections tagged tags vertex_collection
    edge_collection entities relationships get as_fields entries items
scope_bundle_to_graph-exact_example =
    scope_bundle_to_graph-exact offline shared 115 (codes "ocial") (codes "people" ∷ []) [] refl
      (refl, (refl, tt)) tt

kept_test :
    entities (scope_bundle_to_graph offline shared (some (codes "social")))
    ≡ (codes "Person", spec "people" "social") ∷ []
unfolding scope_bundle_to_graph filter_bundle kept_names put membership_collections
    live_graph_collections tagged tags vertex_collection edge_collection entities relationships get
    as_fields entries items
kept_test = refl

untagged_graph_is_empty_example :
    (entities (scope_bundle_to_graph offline shared (some (codes "socail"))) ≡ [])
    × (relationships (scope_bundle_to_graph offline shared (some (codes "socail"))) ≡ [])
unfolding tags entities relationships get as_fields entries items
untagged_graph_is_empty_example =
    untagged_graph_is_empty offline shared 115 (codes "ocail") refl refl refl
