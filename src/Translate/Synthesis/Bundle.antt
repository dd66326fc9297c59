-- ===== src/Translate/Synthesis/Bundle.antt =====
-- The whole of `_synthesize_graph_from_bundle`, and `SchemaResolver.from_mapping_bundle` of
-- arango_sparql/translate/resolver.py, for which reading Turtle is a parameter.
use arango_sparql_py.Base.{Bool, Option, none, some, List, [], ◌∷◌, ◌++◌, String}
use arango_sparql_py.Base.Tests.{if◌then◌else◌}
use arango_sparql_py.Base.Eq.{nat_eq, list_eq}
use arango_sparql_py.Base.Dict.{Dict, get, put}
use arango_sparql_py.Base.Json.{Json, Items, entries, truthy, or_null, as_text}
use arango_sparql_py.Base.Str.{Str, codes}
use arango_sparql_py.Errors.{Error, Result, ◌>>=◌}
use arango_sparql_py.Mapping.{MappingBundle, entities, relationships}
use arango_sparql_py.Schema.Scope.{field_of}
use arango_sparql_py.Translate.{Term, Triple}
use arango_sparql_py.Translate.Rdf.{Rdf, triple}
use arango_sparql_py.Translate.Resolver.{owl, rdfs, a_type}
use arango_sparql_py.Translate.Resolver.Classes.{Config}
use arango_sparql_py.Translate.Resolver.Families.{project_shard_families, family_by_collection}
use arango_sparql_py.Translate.Synthesis.{
  concept, annotation_triple, relationship_annotations, iterated_or_none, named_dicts, filled, str,
  at, if_given, annotations, relationship_collection, style_of, is_property_of, all_entities,
}
use Json.{null, array, object}
use Items.{nil}
use Error.{attribute_error}
use Result.{ok, err}

-- `x or y`
abbrev pub or_json : Json → Json → Json
or_json j k = if truthy j then j else k

abbrev pub value_at : String → Json → Json
value_at k j = or_null (field_of (codes k) j)

abbrev pub Endpoints : Type 0
Endpoints = Dict Str (Json × Json)

abbrev pub endpoint_pair : Option (Json × Json) → Json × Json
endpoint_pair none = (null, null)
endpoint_pair (some p) = p

module _ (r : Rdf) where
  -- the graph with the triples added in their order
  unfoldable pub add_all : List Triple → r.Graph → r.Graph
  add_all [] g = g
  add_all (t ∷ ts) g = add_all ts (r.add t g)

module _ (repr : Json → Str) (dumps : List Str → Str) where
  abbrev pub str_ : Json → Str
  str_ j = str repr dumps j

  abbrev pub subtypes_of : List Json → Dict Str Json → Dict Str Json
  subtypes_of [] d = d
  subtypes_of (e ∷ es) d =
      subtypes_of es
        (put (str_ (value_at "name" e)) (or_json (value_at "subtypes" e) (array nil)) d)

  abbrev pub endpoints_of : List Json → Endpoints → Endpoints
  endpoints_of [] d = d
  endpoints_of (r ∷ rs) d =
      endpoints_of rs
        (put (str_ (value_at "type" r)) (value_at "fromEntity" r, value_at "toEntity" r) d)

  abbrev pub concept_property : Term → Option Str → List Triple
  concept_property domain none = []
  concept_property domain (some name) = is_property_of repr dumps name domain

  abbrev pub concept_properties : Term → List Json → List Triple
  concept_properties domain [] = []
  concept_properties domain (p ∷ ps) =
      concept_property domain (filled (as_text (value_at "name" p))) ++ concept_properties domain ps

  unfoldable pub all_concepts : List Json → Result (List Triple)
  all_concepts [] = ok []
  all_concepts (e ∷ es) = iterated_or_none (field_of (codes "properties") e) >>= λ ps.
      all_concepts es >>= λ us.
      ok (concept_properties (concept (str_ (value_at "name" e))) ps ++ us)

  abbrev pub endpoint : Str → String → Option Str → List Triple
  endpoint label predicate none = []
  endpoint label predicate (some name) = triple (concept label) (rdfs predicate) (concept name) ∷ []

  abbrev pub spec_relationship : Endpoints → Str → Dict Str Json → List Triple
  spec_relationship ends label spec =
      let (concept_from, concept_to) = endpoint_pair (get label ends) in
      triple (concept label) a_type (owl "ObjectProperty")
      ∷ (if_given repr dumps label (codes "edgeCollectionName")
            (relationship_collection repr dumps spec)
          ++ (annotation_triple label (codes "mappingStyle")
                (style_of repr dumps spec "DEDICATED_COLLECTION")
              ∷ (endpoint label "domain"
                    (filled (as_text (or_json (at repr dumps spec "fromEntity") concept_from)))
                  ++ (endpoint label "range"
                        (filled (as_text (or_json (at repr dumps spec "toEntity") concept_to)))
                      ++ annotations repr dumps label spec relationship_annotations))))

  abbrev pub relationship_triples : Endpoints → Str → Json → Result (List Triple)
  relationship_triples ends [] spec = ok []
  relationship_triples ends (c ∷ label) (object fs) =
      ok (spec_relationship ends (c ∷ label) (entries fs))
  relationship_triples ends (c ∷ label) _ = err attribute_error

  unfoldable pub all_relationships : Endpoints → Dict Str Json → Result (List Triple)
  all_relationships ends [] = ok []
  all_relationships ends ((label, spec) ∷ d) = relationship_triples ends label spec >>= λ ts.
      all_relationships ends d >>= λ us. ok (ts ++ us)

  -- the triples of the entities, of the conceptual properties and of the relationships
  abbrev pub parts_of : MappingBundle → List Json → List Json → Result (List Triple)
  parts_of b concepts rels =
      all_entities repr dumps (subtypes_of concepts []) (entities b) >>= λ es.
      all_concepts concepts >>= λ cs.
      all_relationships (endpoints_of rels []) (relationships b) >>= λ rs. ok (es ++ (cs ++ rs))

  -- `_synthesize_graph_from_bundle`
  unfoldable pub synthesized : MappingBundle → Result (List Triple)
  synthesized b = iterated_or_none (get (codes "entities") b.conceptual_schema) >>= λ es.
      iterated_or_none (get (codes "relationships") b.conceptual_schema) >>= λ rs.
      parts_of b (named_dicts "name" es) (named_dicts "type" rs)

  module _ (r : Rdf) (parse : Str → Result r.Graph) where
    abbrev pub ontology_of : MappingBundle → Option Str → Result r.Graph
    ontology_of b (some turtle) = parse turtle
    ontology_of b none = synthesized b >>= λ ts. ok (add_all r ts r.empty)

    -- `from_mapping_bundle`
    unfoldable pub from_mapping_bundle : Str → Bool → MappingBundle → Result (r.Graph × Config)
    from_mapping_bundle default permissive b = ontology_of b (filled b.owl_turtle) >>= λ g.
        family_by_collection (project_shard_families b.physical_mapping) >>= λ families.
        ok
          (g, record { default_collection = default; permissive = permissive; families = families })
