-- ===== src/Schema/Scope.antt =====
-- arango_sparql/schema/graph_scope.py: a bundle's down-selection to one named graph. The names of
-- collections and graphs are texts, a set of them is a list, and the database's answers are parameters.
pub mod Exact
mod Tests
use arango_sparql_py.Base.{
  Bool, true, false, not, ◌||◌, ◌&&◌, Option, none, some, List, [], ◌∷◌, ◌++◌, map,
}
use arango_sparql_py.Base.Tests.{if◌then◌else◌, is_some}
use arango_sparql_py.Base.Eq.{◌==◌, nat_eq, list_eq}
use arango_sparql_py.Base.Lists.{any, keep, contains, is_nil}
use arango_sparql_py.Base.Dict.{Dict, get, put}
use arango_sparql_py.Base.Json.{Json, items, entries, as_items, dict, truthy, or_null, as_text}
use arango_sparql_py.Base.Str.{Str, codes}
use arango_sparql_py.Mapping.{MappingBundle, entities, relationships}
use Json.{null, boolean, integer, float, text, array, object}

abbrev pub field_of : Str → Json → Option Json
field_of k (object fs) = get k (entries fs)
field_of k _ = none

-- `spec.get("graphs")` where it is a list
abbrev pub tag_list : Option Json → Option (List Json)
tag_list (some (array js)) = some (items js)
tag_list _ = none

unfoldable pub tags : Json → Option (List Json)
tags spec = tag_list (field_of (codes "graphs") spec)

abbrev pub same_text : Str → Json → Bool
same_text s (text t) = t == s
same_text s _ = false

abbrev pub in_tags : Str → Option (List Json) → Bool
in_tags graph none = false
in_tags graph (some ts) = any (same_text graph) ts

abbrev pub non_empty : Option Str → Option Str
non_empty none = none
non_empty (some []) = none
non_empty (some (c ∷ s)) = some (c ∷ s)

abbrev pub text_of : Option Json → Option Str
text_of o = as_text (or_null o)

unfoldable pub vertex_collection : Json → Option Str
vertex_collection spec = text_of (field_of (codes "collectionName") spec)

abbrev pub or_else : Option Str → Option Str → Option Str
or_else none o = o
or_else (some s) o = some s

-- `spec.get("edgeCollectionName") or spec.get("collectionName")`
unfoldable pub edge_collection : Json → Option Str
unfolding vertex_collection
edge_collection spec =
    or_else (non_empty (text_of (field_of (codes "edgeCollectionName") spec)))
      (vertex_collection spec)

abbrev pub added : Option Str → List Str → List Str
added none names = names
added (some s) names = s ∷ names

-- the collections of the specs that are tagged with the graph
unfoldable pub tagged : (Json → Option Str) → Str → Dict Str Json → List Str
tagged collection graph [] = []
tagged collection graph ((name, spec) ∷ d) =
    let rest = tagged collection graph d in
    if in_tags graph (tags spec) then added (non_empty (collection spec)) rest else rest

abbrev pub saw_tag : Dict Str Json → Bool
saw_tag d = any (λ (e : Str × Json). is_some (tags e.1)) d

-- `_membership_collections`
unfoldable pub membership_collections : MappingBundle → Str → Option (List Str × List Str)
membership_collections b graph =
    if saw_tag (entities b) || saw_tag (relationships b)
    then some (
      tagged vertex_collection graph (entities b),
      tagged edge_collection graph (relationships b),
    )
    else none

-- A graph as the driver gives it; none stands for an exception.
pub record LiveGraph : Type 0 where
  pub vertex_collections : Option (List Str)
  pub edge_definitions : Option (List Json)

-- The driver: whether it says that the graph is there, if it can be asked, and the graph.
pub record GraphDb : Type 0 where
  pub has_graph : Str → Option Bool
  pub graph : Str → Option LiveGraph

abbrev pub texts : List Json → List Str
texts [] = []
texts (text s ∷ js) = s ∷ texts js
texts (j ∷ js) = texts js

abbrev pub name_list : Option Json → List Str
name_list (some (array js)) = texts (items js)
name_list _ = []

abbrev pub first_names : List Str → List Str → List Str
first_names [] ys = ys
first_names (x ∷ xs) ys = x ∷ xs

-- the edge collection and the vertex collections of one edge definition
unfoldable pub definition_edge : Json → Option Str
definition_edge ed =
    or_else (non_empty (text_of (field_of (codes "edge_collection") ed)))
      (non_empty (text_of (field_of (codes "collection") ed)))

unfoldable pub definition_vertices : Json → List Str
definition_vertices ed =
    first_names (name_list (field_of (codes "from_vertex_collections") ed))
      (name_list (field_of (codes "from") ed))
    ++ first_names (name_list (field_of (codes "to_vertex_collections") ed))
        (name_list (field_of (codes "to") ed))

unfoldable pub add_definitions : List Json → List Str × List Str → List Str × List Str
add_definitions [] found = found
add_definitions (ed ∷ eds) (vertex, edges) =
    add_definitions eds (vertex ++ definition_vertices ed, added (definition_edge ed) edges)

abbrev pub read_collections : Option (List Str) → Option (List Json) → Option (List Str × List Str)
read_collections none ds = none
read_collections (some vs) none = none
read_collections (some vs) (some ds) = some (add_definitions ds (vs, []))

abbrev pub read_graph : Option LiveGraph → Option (List Str × List Str)
read_graph none = none
read_graph (some g) = read_collections g.vertex_collections g.edge_definitions

abbrev pub present : Option Bool → Bool
present (some false) = false
present _ = true

-- `_live_graph_collections`
unfoldable pub live_graph_collections : GraphDb → Str → Option (List Str × List Str)
live_graph_collections db graph =
    if present (db.has_graph graph) then read_graph (db.graph graph) else none

abbrev pub among : List Str → Option Str → Bool
among names none = false
among names (some s) = contains s names

abbrev pub is_dict : Json → Bool
is_dict (object fs) = true
is_dict _ = false

-- the names of the specs whose collection is in the graph
unfoldable pub kept_names : (Json → Option Str) → List Str → Dict Str Json → List Str
kept_names collection names [] = []
kept_names collection names ((name, spec) ∷ d) =
    let rest = kept_names collection names d in
    if is_dict spec && among names (collection spec) then name ∷ rest else rest

abbrev pub filtered :
    (Json → Option Str) → List Str → Option Json → Dict Str Json → Str → Dict Str Json
filtered name kept (some (array js)) out k =
    put k (array (as_items (keep (λ e. not (is_dict e) || among kept (name e)) (items js)))) out
filtered name kept _ out k = out

unfoldable pub entity_name : Json → Option Str
entity_name e = text_of (field_of (codes "name") e)

unfoldable pub relationship_name : Json → Option Str
relationship_name e =
    or_else (non_empty (text_of (field_of (codes "type") e))) (text_of (field_of (codes "name") e))

-- `_filter_conceptual`
unfoldable pub filter_conceptual : Dict Str Json → List Str → List Str → Dict Str Json
filter_conceptual c kept_entities kept_rels =
    filtered relationship_name kept_rels (get (codes "relationships") c)
      (filtered entity_name kept_entities (get (codes "entities") c) c (codes "entities"))
      (codes "relationships")

-- the entries whose name is kept
abbrev pub named_in : List Str → Dict Str Json → Dict Str Json
named_in kept d = keep (λ (e : Str × Json). contains e.0 kept) d

-- `_filter_bundle`
unfoldable pub filter_bundle : MappingBundle → List Str → List Str → Str → MappingBundle
filter_bundle b vertex edges graph =
    let kept_entities = kept_names vertex_collection vertex (entities b) in
    let kept_rels = kept_names edge_collection edges (relationships b) in
    record b {
      physical_mapping =
          put (codes "relationships") (dict (named_in kept_rels (relationships b))) (
            put (codes "entities") (dict (named_in kept_entities (entities b))) b.physical_mapping);
      metadata = put (codes "graphScope") (text graph) b.metadata;
      conceptual_schema = filter_conceptual b.conceptual_schema kept_entities kept_rels;
    }

abbrev pub filter_resolved : MappingBundle → Str → Option (List Str × List Str) → MappingBundle
filter_resolved b graph none = b
filter_resolved b graph (some (vertex, edges)) = filter_bundle b vertex edges graph

abbrev pub or_live :
    Option (List Str × List Str) → Option (List Str × List Str) → Option (List Str × List Str)
or_live none live = live
or_live (some found) live = some found

abbrev pub scope_to : GraphDb → MappingBundle → Str → MappingBundle
scope_to db b graph =
    filter_resolved b graph
      (or_live (membership_collections b graph) (live_graph_collections db graph))

-- `scope_bundle_to_graph`
unfoldable pub scope_bundle_to_graph : GraphDb → MappingBundle → Option Str → MappingBundle
scope_bundle_to_graph db b none = b
scope_bundle_to_graph db b (some []) = b
scope_bundle_to_graph db b (some (c ∷ graph)) = scope_to db b (c ∷ graph)
