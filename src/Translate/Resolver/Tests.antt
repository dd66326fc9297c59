-- ===== src/Translate/Resolver/Tests.antt =====
-- An ontology that arango_sparql/translate/resolver.py resolves.
use arango_sparql_py.Base.{◌⊎◌, ◌≡◌, false, Option, none, some, List, [], ◌∷◌, ◌++◌, String, refl}
use mathlib.Core.List.{Permᴰ}
use arango_sparql_py.Base.Eq.{nat_eq, list_eq}
use arango_sparql_py.Base.Order.{nat_order, list_order, insert, sorted}
use arango_sparql_py.Base.Dict.{get, put}
use arango_sparql_py.Base.Json.{Json, Items, items, entries, as_fields}
use arango_sparql_py.Base.Str.{Str, codes}
use arango_sparql_py.Errors.{Error, Result}
use arango_sparql_py.Mapping.Names.{
  property_field_path, valid_segments, is_valid_field_name, field_char, without_newline,
}
use arango_sparql_py.Translate.{Term, Triple}
use arango_sparql_py.Translate.Rdf.{list_rdf, triple}
use arango_sparql_py.Translate.Resolver.{
  owl, rdfs, a_type, annotation, physical_string, resolve_class, local_name, after_separator,
}
use arango_sparql_py.Translate.Resolver.Classes.{ResolvedClass, plain_class, Config}
use arango_sparql_py.Aql.Names.{parse_flag}
use arango_sparql_py.Translate.Resolver.Properties.{
  field_path, attribute_path, resolve_property, class_list, ResolvedProperty,
}
use arango_sparql_py.Translate.Resolver.Properties.Located.{IsReadAt, field_path-resolve_property}
use arango_sparql_py.Translate.Resolver.Supertypes.{each, members, visit, supertype_members}
use arango_sparql_py.Translate.Resolver.Supertypes.Exact.{IsExact}
use arango_sparql_py.Translate.Resolver.Supertypes.Total.{supertype_members-exact}
use arango_sparql_py.Translate.Resolver.Supertypes.Cycles.{Leads, cycle_is_refused}
use arango_sparql_py.Translate.Resolver.Families.{
  Family, Families, projected, family_of, index_members, index_families, family_by_collection,
}
use arango_sparql_py.Translate.Resolver.Families.Index.{Agree, IsIndex, family_by_collection-exact}
use arango_sparql_py.Translate.Resolver.Families.Canonical.{SameFamilies, projected-SameFamilies}
use Error.{schema_error}
use Result.{ok, err}
use Term.{iri, literal}
use Json.{null, text, array}
use Items.{nil, cons}

abbrev is_class : String → Triple
is_class k = triple (iri (codes k)) a_type (owl "Class")

abbrev annotated : String → String → String → Triple
annotated k name value =
    triple (iri (codes k)) (iri (codes "http://arangodb.com/schema/physical#" ++ codes name))
      (literal (codes value) none none)

abbrev under : String → String → Triple
under k above = triple (iri (codes k)) (rdfs "subClassOf") (iri (codes above))

abbrev zoo : List Triple
zoo =
    is_class "Animal"
    ∷ annotated "Animal" "mappingStyle" "UNION"
    ∷ under "Dog" "Animal"
    ∷ under "Cat" "Animal"
    ∷ is_class "Cat"
    ∷ annotated "Cat" "collectionName" "cats"
    ∷ is_class "Dog"
    ∷ annotated "Dog" "collectionName" "dogs"
    ∷ []

abbrev config : Config
config = record { default_collection = codes "Document"; permissive = false; families = [] }

abbrev zoo_members : List ResolvedClass
zoo_members =
    plain_class (codes "Cat") (codes "cats") ∷ plain_class (codes "Dog") (codes "dogs") ∷ []

zoo_test : supertype_members list_rdf zoo config (codes "Animal") ≡ some (ok zoo_members)
unfolding supertype_members visit each members sorted insert resolve_class annotation get parse_flag
zoo_test = refl

supertype_members-exact_example :
    ((e : Error) × (supertype_members list_rdf zoo config (codes "Animal") ≡ some (err e)))
    ⊎ ((out : List ResolvedClass) × (supertype_members list_rdf zoo config (codes "Animal")
          ≡ some (ok out))
        × IsExact list_rdf zoo config (codes "Animal") out)
supertype_members-exact_example = supertype_members-exact list_rdf zoo config (codes "Animal")

abbrev ring : List Triple
ring =
    is_class "A"
    ∷ annotated "A" "mappingStyle" "UNION"
    ∷ is_class "B"
    ∷ annotated "B" "mappingStyle" "UNION"
    ∷ under "A" "B"
    ∷ under "B" "A"
    ∷ []

ring-Leads : Leads list_rdf ring config (codes "A") (codes "A")
unfolding members sorted insert resolve_class annotation
ring-Leads =
    Leads.more (codes "A") (codes "B") (codes "A")
      (record (plain_class (codes "A") []) { style = some (codes "UNION") }) refl refl refl
      (Leads.one (codes "B") (codes "A")
        (record (plain_class (codes "B") []) { style = some (codes "UNION") }) refl refl refl)

cycle_is_refused_example :
    (e : Error) × (supertype_members list_rdf ring config (codes "A") ≡ some (err e))
cycle_is_refused_example =
    cycle_is_refused list_rdf ring config (codes "A") (codes "A") ring-Leads ring-Leads

-- a property inside an object, and one whose path is null
abbrev home : List Triple
home =
    triple (iri (codes "city")) a_type (owl "DatatypeProperty")
    ∷ annotated "city" "attributePath" "path"
    ∷ []

abbrev two_levels : Str → Option Json
two_levels raw = some (array (cons (text (codes "address")) (cons (text (codes "city")) nil)))

abbrev unreadable : Str → Option Json
unreadable raw = none

abbrev no_path : Str → Option Json
no_path raw = some null

abbrev home_city : ResolvedProperty
home_city = record {
  property_iri = codes "city";
  attribute = codes "address";
  is_object_property = false;
  edge_collection = none;
  mapping_style = none;
  edge_type_field = none;
  edge_type_value = none;
  domain_iri = none;
  range_iris = [];
  symmetric = false;
  nested_path = some (codes "address" ∷ codes "city" ∷ []);
  reified_edge = false;
  edge_target_of = [];
}

home_test : (resolve_property list_rdf home two_levels (codes "city")).1 ≡ ok home_city
unfolding resolve_property attribute_path annotation property_field_path valid_segments
    is_valid_field_name field_char without_newline entries as_fields get items class_list sorted
    local_name after_separator
home_test = refl

field_path-resolve_property_example :
    IsReadAt list_rdf home two_levels (codes "city") (field_path home_city)
field_path-resolve_property_example =
    field_path-resolve_property list_rdf home two_levels (codes "city") home_city refl home_test

-- a path that is no JSON is refused
malformed_test : (resolve_property list_rdf home unreadable (codes "city")).1 ≡ err schema_error
unfolding resolve_property attribute_path annotation
malformed_test = refl

home_path : physical_string list_rdf home (codes "city") "attributePath" ≡ some (codes "path")
unfolding annotation
home_path = refl

home_name : physical_string list_rdf home (codes "city") "attributeName" ≡ none
unfolding annotation
home_name = refl

abbrev orders : Family
orders = codes "orders_1" ∷ codes "orders_2" ∷ []

abbrev users : Family
users = codes "users" ∷ []

abbrev both_families : List Family
both_families = orders ∷ users ∷ []

family_by_collection-exact_example :
    ((x : Error) × (family_by_collection both_families ≡ err x) × (¬ Agree both_families))
    ⊎ ((e : Families) × (family_by_collection both_families ≡ ok e) × IsIndex both_families e)
family_by_collection-exact_example = family_by_collection-exact both_families

abbrev clash : List Family
clash = orders ∷ (codes "orders_2" ∷ codes "users" ∷ []) ∷ []

clash_test : family_by_collection clash ≡ err schema_error
unfolding family_by_collection index_families index_members get put
clash_test = refl

abbrev shuffled : List Json
shuffled =
    array (cons (text (codes "users")) nil)
    ∷ array (cons (text (codes "orders_2")) (cons (text (codes "orders_1")) nil))
    ∷ []

abbrev in_order : List Json
in_order =
    array (cons (text (codes "orders_1")) (cons (text (codes "orders_2")) nil))
    ∷ array (cons (text (codes "users")) nil)
    ∷ []

shuffled-SameFamilies : SameFamilies shuffled in_order
unfolding items
shuffled-SameFamilies =
    SameFamilies.trans (SameFamilies.exchanged _ _)
      (SameFamilies.family (Permᴰ.swap refl refl) (SameFamilies.other _ SameFamilies.here))

projected-SameFamilies_example : projected shuffled ≡ projected in_order
projected-SameFamilies_example = projected-SameFamilies shuffled-SameFamilies

projected_test : projected shuffled ≡ both_families
unfolding projected family_of sorted insert items
projected_test = refl
