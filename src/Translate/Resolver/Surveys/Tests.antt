-- ===== src/Translate/Resolver/Surveys/Tests.antt =====
-- Ontologies that arango_sparql/translate/resolver.py surveys.
use arango_sparql_py.Base.{
  ◌≡◌, ◌↔◌, true, false, Option, none, some, List, [], ◌∷◌, ◌++◌, String, refl,
}
use arango_sparql_py.Base.Eq.{nat_eq, list_eq}
use arango_sparql_py.Base.Order.{nat_order, list_order, insert, sorted}
use arango_sparql_py.Base.Dict.{get, put, set_default}
use arango_sparql_py.Base.Json.{Json}
use arango_sparql_py.Base.Str.{Str, codes}
use arango_sparql_py.Errors.{Error, Result}
use arango_sparql_py.Aql.Names.{parse_flag}
use arango_sparql_py.Translate.{Term, Triple}
use arango_sparql_py.Translate.Rdf.{list_rdf, triple}
use arango_sparql_py.Translate.Resolver.{
  owl, a_type, annotation, physical_string, resolve_class, has_type, is_style, local_name,
  after_separator,
}
use arango_sparql_py.Translate.Resolver.Classes.{ResolvedClass, plain_class, Config}
use arango_sparql_py.Translate.Resolver.Properties.{attribute_path, resolve_property, class_list}
use arango_sparql_py.Translate.Resolver.Surveys.{
  layout, declared, declared_once, tenant_classes, tenant_scoped_classes, resolve_all,
  triple_store_class, described, described_sources,
}
use arango_sparql_py.Translate.Resolver.Surveys.Catalogue.{index_attributes, attribute_uri_map}
use arango_sparql_py.Base.AnyOf.{AnyOf}
use arango_sparql_py.Translate.Resolver.Surveys.Styles.{Guards}
use arango_sparql_py.Translate.Resolver.Surveys.Tenants.{tenant_scoped_classes-Guards}
use arango_sparql_py.Translate.Resolver.Surveys.Attributes.{IsLeast, attribute_uri_map-IsLeast}
use arango_sparql_py.Translate.Resolver.Surveys.Stores.{
  unasked, SameTable, OnTable, triple_store_class-OnTable, asked_again_after_error,
}
use Error.{schema_error}
use Result.{ok, err}
use Term.{iri, literal}

abbrev class_of : String → Triple
class_of k = triple (iri (codes k)) a_type (owl "Class")

abbrev attribute_of : String → Triple
attribute_of k = triple (iri (codes k)) a_type (owl "DatatypeProperty")

abbrev annotated : String → String → String → Triple
annotated k name value =
    triple (iri (codes k)) (iri (codes "http://arangodb.com/schema/physical#" ++ codes name))
      (literal (codes value) none none)

abbrev config : Config
config = record { default_collection = codes "Document"; permissive = false; families = [] }

-- a class of an unknown style, which does not resolve, with a tenant field
abbrev shop : List Triple
shop =
    class_of "Order"
    ∷ annotated "Order" "mappingStyle" "SHELF"
    ∷ annotated "Order" "collectionName" "orders"
    ∷ annotated "Order" "tenantField" "owner"
    ∷ class_of "Product"
    ∷ annotated "Product" "collectionName" "products"
    ∷ []

shop_fails : (resolve_class list_rdf shop config (codes "Order")).1 ≡ err schema_error
unfolding resolve_class annotation
shop_fails = refl

order_tenant :
    physical_string list_rdf shop (codes "Order") "tenantField" ≡ some (111 ∷ codes "wner")
unfolding annotation
order_tenant = refl

order_collection :
    physical_string list_rdf shop (codes "Order") "collectionName" ≡ some (111 ∷ codes "rders")
unfolding annotation
order_collection = refl

order_is_concrete :
    is_style "UNION" (physical_string list_rdf shop (codes "Order") "mappingStyle") ≡ false
unfolding annotation
order_is_concrete = refl

tenant_scoped_classes-Guards_example :
    (cs : List ResolvedClass) × (tenant_scoped_classes list_rdf shop config
        (is_style "RPT" (physical_string list_rdf shop (codes "Order") "mappingStyle"))
      ≡ ok cs)
    × AnyOf
        (Guards
          (codes "Order")
          (codes "orders")
          (codes "owner")
          (is_style "RPT" (physical_string list_rdf shop (codes "Order") "mappingStyle")))
        cs
tenant_scoped_classes-Guards_example =
    tenant_scoped_classes-Guards list_rdf shop config (codes "Order") 111 111 (codes "wner")
      (codes "rders") refl order_tenant order_collection order_is_concrete

shop_test :
    tenant_scoped_classes list_rdf shop config false
    ≡ ok (
        record (plain_class (codes "Order") (codes "orders")) {
          tenant_field = some (codes "owner");
        }
        ∷ [])
unfolding tenant_scoped_classes tenant_classes declared sorted insert resolve_class annotation
    parse_flag get
shop_test = refl

sources_test : described_sources list_rdf shop config true ≡ ok (codes "products" ∷ [], [])
unfolding described_sources described declared sorted insert resolve_class annotation parse_flag get
    set_default
sources_test = refl

-- two properties of one attribute
abbrev names : List Triple
names = attribute_of "http://b#name" ∷ attribute_of "http://a#name" ∷ []

abbrev no_json : Str → Option Json
no_json raw = none

names_test :
    (attribute_uri_map list_rdf names no_json).1 ≡ ok ((codes "name", codes "http://a#name") ∷ [])
unfolding attribute_uri_map index_attributes declared_once sorted insert resolve_property
    attribute_path annotation class_list local_name after_separator parse_flag get put
names_test = refl

attribute_uri_map-IsLeast_example :
    (get (codes "name") ((codes "name", codes "http://a#name") ∷ []) ≡ some (codes "http://a#name"))
    ↔ IsLeast list_rdf names no_json (codes "name") (codes "http://a#name")
attribute_uri_map-IsLeast_example =
    attribute_uri_map-IsLeast list_rdf names no_json ((codes "name", codes "http://a#name") ∷ [])
      names_test (codes "name") (codes "http://a#name")

-- a mapping of one table of triples
abbrev store : List Triple
store =
    class_of "Order"
    ∷ annotated "Order" "mappingStyle" "RPT"
    ∷ class_of "Product"
    ∷ annotated "Product" "mappingStyle" "RPT"
    ∷ []

abbrev triples : ResolvedClass
triples = plain_class (codes "Order") (codes "_triples")

store_test :
    (triple_store_class list_rdf store config unasked).0
    ≡ ok (
        some (record (plain_class (codes "urn:arango-sparql:triple-store") (codes "_triples")) {
          style = some (codes "RPT");
        }))
unfolding triple_store_class resolve_all declared sorted insert resolve_class annotation layout
    parse_flag get
store_test = refl

triple_store_class-OnTable_example :
    ((c : ResolvedClass) × ((triple_store_class list_rdf store config unasked).0 ≡ ok (some c))
      × (c.class_iri ≡ codes "urn:arango-sparql:triple-store")
      × SameTable c triples)
    ↔ (((k : Str) × (has_type list_rdf store k "Class" ≡ true))
        × ((k : Str)
            → has_type list_rdf store k "Class" ≡ true
            → OnTable triples (resolve_class list_rdf store config k).1))
triple_store_class-OnTable_example = triple_store_class-OnTable list_rdf store config triples

broken_store : (triple_store_class list_rdf shop config unasked).0 ≡ err schema_error
unfolding triple_store_class resolve_all declared sorted insert resolve_class annotation
broken_store = refl

asked_again_after_error_example :
    (triple_store_class list_rdf shop config (triple_store_class list_rdf shop config unasked).1).0
    ≡ ok none
asked_again_after_error_example =
    asked_again_after_error list_rdf shop config schema_error broken_store
