-- ===== src/Translate/Synthesis.antt =====
-- `_synthesize_graph_from_bundle` of arango_sparql/translate/resolver.py: the triples that it adds for a
-- mapping bundle without an ontology, in their order. `repr` of a list or a dict and `json.dumps` of a
-- list of texts are parameters.
pub mod Bundle
pub mod Annotated
pub mod Elsewhere
pub mod Others
pub mod Own
pub mod Stated
pub mod Resolved
pub mod Faithful
mod Tests
use arango_sparql_py.Base.{
  ℕ, ◌+◌, ◌-◌, ◌*◌, ◌/◌, ◌%◌, ◌≡◌, Bool, true, false, not, ◌&&◌, ◌||◌, Option, none, some, List, [],
  ◌∷◌, ◌++◌, map, String,
}
use arango_sparql_py.Base.Tests.{if◌then◌else◌, ltb, is_some}
use arango_sparql_py.Base.Eq.{◌==◌, nat_eq, list_eq}
use arango_sparql_py.Base.Lists.{contains, length, is_nil, keep}
use arango_sparql_py.Base.Dict.{Dict, get, put}
use arango_sparql_py.Base.Json.{Json, Fields, items, entries, truthy, or_null, is_null, as_text}
use arango_sparql_py.Base.Numbers.{ℤ, pos, negsuc}
use arango_sparql_py.Base.Str.{Str, codes, show, is_letter, is_digit}
use arango_sparql_py.Errors.{Error, Result, ◌>>=◌}
use arango_sparql_py.Mapping.{MappingBundle, entities, relationships}
use arango_sparql_py.Mapping.Names.{property_field_path}
use arango_sparql_py.Schema.Scope.{field_of, is_dict}
use arango_sparql_py.Translate.{Term, Triple}
use arango_sparql_py.Translate.Rdf.{Rdf, triple}
use arango_sparql_py.Translate.Resolver.{owl, rdfs, a_type, or_text, is_style}
use Json.{null, boolean, integer, float, text, array, object}
use Error.{type_error, attribute_error}
use Result.{ok, err}
use Term.{iri, literal}

-- `urllib.parse.quote(label, safe="")`
abbrev pub utf8 : ℕ → List ℕ
utf8 c =
    if ltb c 128
    then c ∷ []
    else if ltb c 2048
    then (192 + c / 64) ∷ (128 + c % 64) ∷ []
    else if ltb c 65536
    then (224 + c / 4096) ∷ (128 + c / 64 % 64) ∷ (128 + c % 64) ∷ []
    else (240 + c / 262144) ∷ (128 + c / 4096 % 64) ∷ (128 + c / 64 % 64) ∷ (128 + c % 64) ∷ []

abbrev pub hex_digit : ℕ → ℕ
hex_digit d = if ltb d 10 then 48 + d else 55 + d

abbrev pub is_unreserved : ℕ → Bool
is_unreserved c = is_letter c || is_digit c || c == 95 || c == 46 || c == 45 || c == 126

abbrev pub quoted_byte : ℕ → Str
quoted_byte b =
    if is_unreserved b then b ∷ [] else 37 ∷ hex_digit (b / 16) ∷ hex_digit (b % 16) ∷ []

abbrev pub quoted_bytes : List ℕ → Str
quoted_bytes [] = []
quoted_bytes (b ∷ bs) = quoted_byte b ++ quoted_bytes bs

unfoldable pub quote : Str → Str
quote [] = []
quote (c ∷ s) = quoted_bytes (utf8 c) ++ quote s

unfoldable pub synthetic_iri : Str → Str
synthetic_iri label = codes "urn:arango-sparql:concept#" ++ quote label

abbrev pub concept : Str → Term
concept label = iri (synthetic_iri label)

-- `_SYNTHETIC_PHYS_NS`
abbrev pub phys : Str → Term
phys name = iri (codes "http://arangodb.com/schema/physical#" ++ name)

abbrev pub plain_literal : Str → Term
plain_literal s = literal s none none

abbrev pub annotation_triple : Str → Str → Str → Triple
annotation_triple label name value = triple (concept label) (phys name) (plain_literal value)

-- the keys of `_BUNDLE_ENTITY_ANNOTATIONS` and `_BUNDLE_RELATIONSHIP_ANNOTATIONS`, whose two columns agree
abbrev pub entity_annotations : List Str
entity_annotations = map codes (
    "typeField" ∷ "typeValue" ∷ "typeFieldIsArray" ∷ "triplesCollection" ∷ "subjectColumn"
    ∷ "predicateColumn" ∷ "objectUriColumn" ∷ "objectValueColumn" ∷ "tenantField" ∷ "tenantEntity"
    ∷ "labelsField" ∷ "labelValue" ∷ [])

abbrev pub relationship_annotations : List Str
relationship_annotations = map codes ("typeField" ∷ "typeValue" ∷ "triplesCollection" ∷ [])

-- what a loop runs over
abbrev pub one_char : ℕ → Json
one_char c = text (c ∷ [])

abbrev pub key_text : Str × Json → Json
key_text e = text e.0

abbrev pub iterated : Json → Result (List Json)
iterated (array js) = ok (items js)
iterated (text s) = ok (map one_char s)
iterated (object fs) = ok (map key_text (entries fs))
iterated _ = err type_error

-- `x or []`
abbrev pub iterated_or_none : Option Json → Result (List Json)
iterated_or_none o = if truthy (or_null o) then iterated (or_null o) else ok []

-- the dicts among the items with a truthy value at a key
abbrev pub named_dicts : String → List Json → List Json
named_dicts k js = keep (λ j. is_dict j && truthy (or_null (field_of (codes k) j))) js

abbrev pub filled : Option Str → Option Str
filled none = none
filled (some []) = none
filled (some (c ∷ s)) = some (c ∷ s)

abbrev pub property_map : Option Json → Dict Str Json
property_map (some (object fs)) = entries fs
property_map _ = []

module _ (repr : Json → Str) (dumps : List Str → Str) where
  -- `str(x)`
  abbrev pub text_of_int : ℤ → Str
  text_of_int (pos n) = show n
  text_of_int (negsuc n) = 45 ∷ show (n + 1)

  abbrev pub str : Json → Str
  str null = codes "None"
  str (boolean true) = codes "True"
  str (boolean false) = codes "False"
  str (integer n) = text_of_int n
  str (float s) = s
  str (text s) = s
  str (array js) = repr (array js)
  str (object fs) = repr (object fs)

  -- `spec.get(k)` of a dict
  abbrev pub at : Dict Str Json → String → Json
  at spec k = or_null (get (codes k) spec)

  -- `str(spec.get(k) or d)`
  abbrev pub or_word : Json → String → Str
  or_word j d = if truthy j then str j else codes d

  -- the annotation of a collection: the spec's, or that of the triples for one style
  abbrev pub collection_text : Json → Bool → Json → Option Str
  collection_text named triples_style triples =
      if truthy named
      then some (str named)
      else if triples_style
      then some (or_word triples "_triples")
      else none

  abbrev pub style_of : Dict Str Json → String → Str
  style_of spec d = or_word (at spec "style") d

  abbrev pub entity_collection : Dict Str Json → Option Str
  entity_collection spec =
      collection_text (at spec "collectionName") (style_of spec "COLLECTION" == codes "RPT")
        (at spec "triplesCollection")

  abbrev pub relationship_collection : Dict Str Json → Option Str
  relationship_collection spec =
      collection_text (at spec "edgeCollectionName")
        (style_of spec "DEDICATED_COLLECTION" == codes "RPT_EDGE") (at spec "triplesCollection")

  abbrev pub if_given : Str → Str → Option Str → List Triple
  if_given label name none = []
  if_given label name (some s) = annotation_triple label name s ∷ []

  -- the text of an annotation that is not None
  abbrev pub not_null : Option Json → Option Str
  not_null none = none
  not_null (some null) = none
  not_null (some j) = some (str j)

  unfoldable pub annotations : Str → Dict Str Json → List Str → List Triple
  annotations label spec [] = []
  annotations label spec (name ∷ names) =
      if_given label name (not_null (get name spec)) ++ annotations label spec names

  abbrev pub subclass : Str → Option Str → List Triple
  subclass label none = []
  subclass label (some member) = triple (concept member) (rdfs "subClassOf") (concept label) ∷ []

  unfoldable pub subclasses : Str → List Json → List Triple
  subclasses label [] = []
  subclasses label (m ∷ ms) = subclass label (filled (as_text m)) ++ subclasses label ms

  abbrev pub is_property_of : Str → Term → List Triple
  is_property_of name domain =
      triple (concept name) a_type (owl "DatatypeProperty")
      ∷ triple (concept name) (rdfs "domain") domain
      ∷ []

  abbrev pub location_triples : Str → Option (List Str) → List Triple
  location_triples name none = []
  location_triples name (some []) = []
  location_triples name (some (field ∷ [])) =
      if field == name then [] else annotation_triple name (codes "attributeName") field ∷ []
  location_triples name (some (s ∷ t ∷ ss)) =
      annotation_triple name (codes "attributePath") (dumps (s ∷ t ∷ ss)) ∷ []

  abbrev pub property_triples : Str → Str → Json → Result (List Triple)
  property_triples label [] spec = ok []
  property_triples label (c ∷ name) spec = property_field_path spec >>= λ where_.
      ok (is_property_of (c ∷ name) (concept label) ++ location_triples (c ∷ name) where_)

  unfoldable pub properties : Str → Dict Str Json → Result (List Triple)
  properties label [] = ok []
  properties label ((name, spec) ∷ d) =
      property_triples label name spec >>= λ ts. properties label d >>= λ us. ok (ts ++ us)

  abbrev pub own_triples : Str → Dict Str Json → List Triple
  own_triples label spec =
      triple (concept label) a_type (owl "Class")
      ∷ (if_given label (codes "collectionName") (entity_collection spec)
          ++ (annotation_triple label (codes "mappingStyle") (style_of spec "COLLECTION")
              ∷ annotations label spec entity_annotations))

  abbrev pub members_of : Dict Str Json → Option Json → Result (List Json)
  members_of spec subtypes =
      if truthy (at spec "members") then iterated (at spec "members") else iterated_or_none subtypes

  abbrev pub spec_triples : Dict Str Json → Str → Json → Result (List Triple)
  spec_triples subtypes label (object fs) = members_of (entries fs) (get label subtypes) >>= λ ms.
      properties label (property_map (get (codes "properties") (entries fs))) >>= λ ps.
      ok (own_triples label (entries fs) ++ (subclasses label ms ++ ps))
  spec_triples subtypes label _ = err attribute_error

  abbrev pub entity_triples : Dict Str Json → Str → Json → Result (List Triple)
  entity_triples subtypes [] spec = ok []
  entity_triples subtypes (c ∷ label) spec = spec_triples subtypes (c ∷ label) spec

  unfoldable pub all_entities : Dict Str Json → Dict Str Json → Result (List Triple)
  all_entities subtypes [] = ok []
  all_entities subtypes ((label, spec) ∷ d) =
      entity_triples subtypes label spec >>= λ ts. all_entities subtypes d >>= λ us. ok (ts ++ us)
