-- ===== src/Translate/Resolver/Surveys/Catalogue.antt =====
-- What arango_sparql/translate/resolver.py asks of all properties of an ontology at once.
use arango_sparql_py.Base.{Bool, not, Option, none, some, List, [], ◌∷◌, ◌++◌, map}
use arango_sparql_py.Base.Tests.{if◌then◌else◌, is_some}
use arango_sparql_py.Base.Eq.{nat_eq, list_eq}
use arango_sparql_py.Base.Lists.{is_nil}
use arango_sparql_py.Base.Order.{nat_order, list_order}
use arango_sparql_py.Base.Dict.{Dict, get, put}
use arango_sparql_py.Base.Json.{Json}
use arango_sparql_py.Base.Str.{Str, codes}
use arango_sparql_py.Errors.{Result, ◌>>=◌}
use arango_sparql_py.Translate.Rdf.{Rdf}
use arango_sparql_py.Translate.Resolver.{given_text}
use arango_sparql_py.Translate.Resolver.Classes.{Fallback}
use arango_sparql_py.Translate.Resolver.Properties.{
  ResolvedProperty, resolve_property, class_list, physical_iris,
}
use Result.{ok, err}
use arango_sparql_py.Translate.Resolver.Surveys.{declared_once}

-- an advisory that two properties have one attribute, and the map without the second
abbrev pub ambiguous : Str → Str → Fallback
ambiguous k other = record {
  code = codes "W_SCHEMA_AMBIGUOUS_ATTRIBUTE";
  of_iri = k;
  instead = other;
}

abbrev pub entered : Str → Str → Dict Str Str → Option Str → List Fallback × Dict Str Str
entered k attribute index none = ([], put attribute k index)
entered k attribute index (some other) = (ambiguous k other ∷ [], index)

abbrev pub entered_property :
    Str → ResolvedProperty → Dict Str Str → Option (List Str) → List Fallback × Dict Str Str
entered_property k p index (some names) = ([], index)
entered_property k p index none = entered k p.attribute index (get p.attribute index)

abbrev pub then_indexed :
    (Dict Str Str → List Fallback × Result (Dict Str Str))
    → Str
    → Dict Str Str
    → List Fallback × Result ResolvedProperty
    → List Fallback × Result (Dict Str Str)
then_indexed rest k index (ws, err e) = (ws, err e)
then_indexed rest k index (ws, ok p) =
    let (vs, index') = entered_property k p index p.nested_path in
    let (us, out) = rest index' in (ws ++ (vs ++ us), out)

module _ (r : Rdf) (g : r.Graph) (loads : Str → Option Json) where
  -- `_build_attribute_uri_map`
  unfoldable pub index_attributes : List Str → Dict Str Str → List Fallback × Result (Dict Str Str)
  index_attributes [] index = ([], ok index)
  index_attributes (k ∷ ks) index =
      then_indexed (index_attributes ks) k index (resolve_property r g loads k)

  unfoldable pub attribute_uri_map : List Fallback × Result (Dict Str Str)
  attribute_uri_map = index_attributes (declared_once r g "DatatypeProperty") []

  unfoldable pub chosen : (ResolvedProperty → Bool) → List Str → Result (List ResolvedProperty)
  chosen test [] = ok []
  chosen test (k ∷ ks) = (resolve_property r g loads k).1 >>= λ p.
      chosen test ks >>= λ ps. ok (if test p then p ∷ ps else ps)

  unfoldable pub nested_properties : Result (List Str)
  nested_properties =
      chosen (λ p. is_some p.nested_path) (declared_once r g "DatatypeProperty") >>= λ ps.
      ok (map (λ p. p.property_iri) ps)

  unfoldable pub edge_properties : Result (List ResolvedProperty)
  edge_properties = chosen (λ p. given_text p.edge_collection) (declared_once r g "ObjectProperty")

  unfoldable pub is_edge_exit : Str → Bool
  is_edge_exit k = not (is_nil (physical_iris r g loads k "edgeTargetOf"))

  unfoldable pub domain_classes : Str → List Str
  domain_classes k = class_list r g loads k "domain"
