-- ===== src/Translate/Synthesis/Tests.antt =====
-- A mapping bundle of which arango_sparql/translate/resolver.py makes an ontology.
use arango_sparql_py.Base.{◌≡◌, false, none, some, List, [], ◌∷◌, ◌++◌, refl}
use arango_sparql_py.Base.Dict.{Dict, get}
use arango_sparql_py.Base.Order.{sorted}
use arango_sparql_py.Base.Json.{Json, items, entries, as_fields, dict, truthy}
use arango_sparql_py.Base.Str.{Str, codes, chars, is_letter, is_digit}
use arango_sparql_py.Errors.{Error, Result}
use arango_sparql_py.Mapping.{MappingBundle, entities, relationships}
use arango_sparql_py.Translate.{Triple}
use arango_sparql_py.Translate.Rdf.{list_rdf}
use arango_sparql_py.Translate.Resolver.{resolve_class, declared_class}
use arango_sparql_py.Translate.Resolver.Classes.{plain_class, Config}
use arango_sparql_py.Aql.Names.{parse_flag}
use arango_sparql_py.Translate.Resolver.Families.{projected, index_families, family_by_collection}
use arango_sparql_py.Translate.Synthesis.{
  quote, synthetic_iri, annotations, subclasses, properties, all_entities,
}
use arango_sparql_py.Translate.Synthesis.Bundle.{
  add_all, all_concepts, all_relationships, synthesized, from_mapping_bundle,
}
use arango_sparql_py.Translate.Synthesis.Stated.{stated}
use arango_sparql_py.Translate.Synthesis.Resolved.{AllOk, IsAnnotated}
use arango_sparql_py.Translate.Synthesis.Faithful.{resolve_class-from_mapping_bundle}
use Error.{parse_error}
use Result.{ok, err}
use Json.{text}

abbrev no_repr : Json → Str
no_repr j = []

abbrev no_dumps : List Str → Str
no_dumps ss = []

abbrev no_turtle : Str → Result (List Triple)
no_turtle s = err parse_error

abbrev person : Dict Str Json
person =
    (codes "collectionName", text (codes "people"))
    ∷ (codes "typeField", text (codes "kind"))
    ∷ (codes "typeValue", text (codes "Person"))
    ∷ (codes "style", text (codes "LABEL"))
    ∷ []

abbrev city : Json
city = dict ((codes "collectionName", text (codes "cities")) ∷ [])

abbrev bundle : MappingBundle
bundle = record {
  conceptual_schema = [];
  physical_mapping =
      (codes "entities", dict ((codes "City", city) ∷ (codes "Person", dict person) ∷ []))
      ∷ (
        codes "relationships",
        dict (
            (codes "lives in", dict ((codes "edgeCollectionName", text (codes "lives")) ∷ []))
            ∷ []),
      )
      ∷ [];
  metadata = [];
  owl_turtle = none;
  source = none;
}

abbrev value_or {ℓ} : {A : Type ℓ} → A → Result A → A
value_or d (ok a) = a
value_or d (err e) = d

abbrev nothing : List Triple × Config
nothing = ([], record { default_collection = []; permissive = false; families = [] })

abbrev made : List Triple × Config
made =
    value_or nothing
      (from_mapping_bundle no_repr no_dumps list_rdf no_turtle (codes "Document") false bundle)

made_ok :
    from_mapping_bundle no_repr no_dumps list_rdf no_turtle (codes "Document") false bundle
    ≡ ok made
unfolding from_mapping_bundle synthesized all_entities all_concepts all_relationships entities
    relationships annotations subclasses properties truthy get items entries as_fields projected
    sorted family_by_collection index_families add_all
made_ok = refl

quote_test : quote (codes "lives in/é") ≡ codes "lives%20in%2F%C3%A9"
unfolding quote chars
quote_test = refl

bundle_entities :
    entities bundle ≡ ((codes "City", city) ∷ []) ++ (codes "Person", dict person) ∷ []
unfolding entities get entries as_fields
bundle_entities = refl

resolve_class-from_mapping_bundle_example :
    (resolve_class list_rdf made.0 made.1 (synthetic_iri (codes "Person"))
      ≡ declared_class
          (λ name. stated no_repr no_dumps (entries (as_fields person)) (codes name))
          made.1
          (synthetic_iri (codes "Person"))
          (stated no_repr no_dumps (entries (as_fields person)) (codes "mappingStyle")))
    × AllOk
        (IsAnnotated
          (λ name. stated no_repr no_dumps (entries (as_fields person)) (codes name))
          (synthetic_iri (codes "Person")))
        (resolve_class list_rdf made.0 made.1 (synthetic_iri (codes "Person"))).1
unfolding synthetic_iri quote is_letter is_digit relationships get entries as_fields
resolve_class-from_mapping_bundle_example =
    resolve_class-from_mapping_bundle no_repr no_dumps (codes "Person") list_rdf no_turtle
      (codes "Document") false bundle made.0 made.1 ((codes "City", city) ∷ []) (as_fields person)
      [] refl refl bundle_entities refl refl refl refl made_ok

person_test :
    (declared_class
      (λ name. stated no_repr no_dumps person (codes name))
      made.1
      (synthetic_iri (codes "Person"))
      (some (codes "LABEL"))).1
    ≡ ok (record (plain_class (synthetic_iri (codes "Person")) (codes "people")) {
      style = some (codes "LABEL");
      type_field = some (codes "kind");
      type_value = some (codes "Person");
    })
unfolding get truthy parse_flag from_mapping_bundle synthesized all_entities all_concepts
    all_relationships entities relationships annotations subclasses properties items entries
    as_fields projected sorted family_by_collection index_families add_all
person_test = refl
