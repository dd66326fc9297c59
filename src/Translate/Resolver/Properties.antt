-- ===== src/Translate/Resolver/Properties.antt =====
-- The properties of arango_sparql/translate/resolver.py; `json.loads` is a parameter, none its ValueError.
pub mod Located
use arango_sparql_py.Base.{
  ◌≡◌, Bool, true, false, not, ◌&&◌, ◌||◌, Option, none, some, List, [], ◌∷◌, ◌++◌, String, refl,
}
use arango_sparql_py.Base.Tests.{if◌then◌else◌, is_some, ltb}
use arango_sparql_py.Base.Lists.{length}
use arango_sparql_py.Base.Order.{nat_order, list_order, sorted}
use arango_sparql_py.Base.Json.{Json, dict}
use arango_sparql_py.Base.Str.{Str, codes}
use arango_sparql_py.Errors.{Error, Result, ◌>>=◌}
use arango_sparql_py.Mapping.Names.{property_field_path}
use arango_sparql_py.Translate.{Term, term_text}
use arango_sparql_py.Translate.Rdf.{Rdf}
use arango_sparql_py.Translate.Resolver.{
  local_name, or_text, given_text, iri_texts, distinct, phys_namespaces, physical_string, has_type,
  owl, rdfs, is_style,
}
use arango_sparql_py.Translate.Resolver.Classes.{ResolvedClass, plain_class, Fallback}
use arango_sparql_py.Aql.Names.{parse_flag}
use Error.{schema_error, assertion_error}
use Result.{ok, err}
use Term.{iri, blank, variable, literal, path}

pub record ResolvedProperty : Type 0 where
  pub property_iri : Str
  pub attribute : Str
  pub is_object_property : Bool
  pub edge_collection : Option Str
  pub mapping_style : Option Str
  pub edge_type_field : Option Str
  pub edge_type_value : Option Str
  pub domain_iri : Option Str
  pub range_iris : List Str
  pub symmetric : Bool
  pub nested_path : Option (List Str)
  pub reified_edge : Bool
  pub edge_target_of : List Str

abbrev pub plain_property : Str → Str → ResolvedProperty
plain_property k attribute = record {
  property_iri = k;
  attribute = attribute;
  is_object_property = false;
  edge_collection = none;
  mapping_style = none;
  edge_type_field = none;
  edge_type_value = none;
  domain_iri = none;
  range_iris = [];
  symmetric = false;
  nested_path = none;
  reified_edge = false;
  edge_target_of = [];
}

-- `ResolvedProperty.field_path`
unfoldable pub field_path : ResolvedProperty → List Str
field_path p = elim p.nested_path [ none ↦ p.attribute ∷ [] | some names ↦ names ]

abbrev pub only_if : Bool → Option Str → Option Str
only_if test o = if test then o else none

-- `phys:mappingStyle`, or the style that the other annotations imply
abbrev pub implied_style : Option Str → Option Str → Option Str → Option Str → Option Str
implied_style (some style) type_field type_value edge = some style
implied_style none type_field type_value edge =
    if given_text type_field && given_text type_value
    then some (codes "GENERIC_WITH_TYPE")
    else if given_text edge
    then some (codes "DEDICATED_COLLECTION")
    else none

abbrev pub true_flag : Option Bool → Bool
true_flag (some true) = true
true_flag (some false) = false
true_flag none = false

abbrev pub text_of_term : Option Term → Option Str
text_of_term none = none
text_of_term (some t) = some (term_text t)

-- what `property_field_path` gives, with its MappingError caught
abbrev pub path_or_error : Result (Option (List Str)) → Result (Option (List Str))
path_or_error (ok (some names)) = ok (some names)
path_or_error (ok none) = err assertion_error
path_or_error (err e) = err schema_error

abbrev pub decoded_path : Option Json → Result (Option (List Str))
decoded_path none = err schema_error
decoded_path (some segments) =
    path_or_error (property_field_path (dict ((codes "path", segments) ∷ [])))

abbrev pub first_name : Str → Option (List Str) → Str
first_name attribute none = attribute
first_name attribute (some []) = attribute
first_name attribute (some (name ∷ names)) = name

abbrev pub nested : Option (List Str) → Option (List Str)
nested none = none
nested (some names) = if ltb 1 (length names) then some names else none

abbrev pub reified_has_edge : ResolvedProperty → Result ResolvedProperty
reified_has_edge p =
    if p.reified_edge && not (is_some p.edge_collection) then err schema_error else ok p

module _ (r : Rdf) (g : r.Graph) (loads : Str → Option Json) where
  abbrev pub union_members : Option Term → List Str
  union_members none = []
  union_members (some head) = iri_texts (r.collection head g)

  abbrev pub named_classes : List Term → List Str
  named_classes [] = []
  named_classes (iri s ∷ ts) = s ∷ named_classes ts
  named_classes (t ∷ ts) = union_members (r.value t (owl "unionOf") g) ++ named_classes ts

  -- `class_list` of `rdfs:domain` or `rdfs:range`
  unfoldable pub class_list : Str → String → List Str
  class_list k name = sorted (distinct (named_classes (r.objects (iri k) (rdfs name) g)))

  abbrev pub annotated_iris : List Str → Str → String → List Str
  annotated_iris [] k name = []
  annotated_iris (ns ∷ nss) k name =
      iri_texts (r.objects (iri k) (iri (ns ++ codes name)) g) ++ annotated_iris nss k name

  -- `_physical_iris`
  unfoldable pub physical_iris : Str → String → List Str
  physical_iris k name = sorted (distinct (annotated_iris phys_namespaces k name))

  abbrev pub path_of : Option Str → Option Str → Result (Option (List Str))
  path_of none named = ok none
  path_of (some raw) named = if is_some named then err schema_error else decoded_path (loads raw)

  -- `_attribute_path`
  unfoldable pub attribute_path : Str → Result (Option (List Str))
  attribute_path k =
      path_of (physical_string r g k "attributePath") (physical_string r g k "attributeName")

  abbrev pub look_if : Bool → Str → String → Option Str
  look_if test k name = only_if test (physical_string r g k name)

  abbrev pub declared_property : Str → Option (List Str) → ResolvedProperty
  declared_property k names =
      let is_object = has_type r g k "ObjectProperty" in
      record {
        property_iri = k;
        attribute =
            first_name (or_text (local_name k) (physical_string r g k "attributeName")) names;
        is_object_property = is_object;
        edge_collection = look_if is_object k "edgeCollectionName";
        mapping_style = only_if is_object (
            implied_style (physical_string r g k "mappingStyle") (physical_string r g k "typeField")
              (physical_string r g k "typeValue") (physical_string r g k "edgeCollectionName"));
        edge_type_field = look_if is_object k "typeField";
        edge_type_value = look_if is_object k "typeValue";
        domain_iri = text_of_term (r.value (iri k) (rdfs "domain") g);
        range_iris = class_list k "range";
        symmetric = is_object && has_type r g k "SymmetricProperty";
        nested_path = nested names;
        reified_edge = is_object && true_flag (parse_flag (physical_string r g k "reifiedEdge"));
        edge_target_of = if is_object then physical_iris k "edgeTargetOf" else [];
      }

  -- `_resolve_property`: the advisories that it raises, and what it returns
  unfoldable pub resolve_property : Str → List Fallback × Result ResolvedProperty
  resolve_property k =
      if has_type r g k "ObjectProperty" || has_type r g k "DatatypeProperty"
      then ([], attribute_path k >>= λ names. reified_has_edge (declared_property k names))
      else (
        record { code = codes "W_SCHEMA_UNMAPPED_IRI"; of_iri = k; instead = local_name k } ∷ [],
        ok (plain_property k (local_name k)),
      )

  abbrev pub typed_edge : ResolvedProperty → Bool
  typed_edge p =
      is_style "GENERIC_WITH_TYPE" p.mapping_style
      && given_text p.edge_type_field
      && given_text p.edge_type_value

  abbrev pub edge_class : ResolvedProperty → Option Str → Result ResolvedClass
  edge_class p none = err schema_error
  edge_class p (some edges) =
      if not p.reified_edge
      then err schema_error
      else ok (record (plain_class p.property_iri edges) {
        type_field = only_if (typed_edge p) p.edge_type_field;
        type_value = only_if (typed_edge p) p.edge_type_value;
        type_field_is_array = if typed_edge p then some false else none;
        style = some (codes "EDGE");
      })

  -- `relationship_edge_class`
  unfoldable pub relationship_edge_class : Str → Result ResolvedClass
  relationship_edge_class k = (resolve_property k).1 >>= λ p. edge_class p p.edge_collection
