-- ===== src/Translate/Resolver.antt =====
-- arango_sparql/translate/resolver.py: classes and properties of an ontology resolved to collections and
-- attributes. The graph is rdflib's.
pub mod Classes
pub mod Properties
pub mod Families
pub mod Indexes
pub mod Supertypes
pub mod Surveys
mod Tests
use arango_sparql_py.Base.{
  ℕ, ◌≡◌, Bool, true, false, not, ◌&&◌, ◌||◌, Option, none, some, List, [], ◌∷◌, ◌++◌, map, String,
}
use arango_sparql_py.Base.Tests.{if◌then◌else◌, is_some}
use arango_sparql_py.Base.Eq.{Eq, ◌==◌, nat_eq, list_eq}
use arango_sparql_py.Base.Lists.{contains, any, is_nil}
use arango_sparql_py.Base.Order.{nat_order, list_order, sorted}
use arango_sparql_py.Base.Dict.{Dict, get, put, has}
use arango_sparql_py.Base.Json.{Json, dict}
use arango_sparql_py.Base.Str.{Str, codes, strip, lower_char}
use arango_sparql_py.Aql.Names.{parse_flag}
use arango_sparql_py.Errors.{Error, Result, ◌>>=◌}
use arango_sparql_py.Mapping.Names.{property_field_path}
use arango_sparql_py.Translate.{Term, Triple, term_text, rdf_type}
use arango_sparql_py.Translate.Rdf.{Rdf, triple}
use Error.{schema_error, assertion_error, mapping_error}
use Result.{ok, err}
use Term.{iri, blank, variable, literal, path}
use arango_sparql_py.Translate.Resolver.Classes.{ResolvedClass, plain_class, Fallback, Config}

abbrev pub owl : String → Term
owl name = iri (codes "http://www.w3.org/2002/07/owl#" ++ codes name)

abbrev pub rdfs : String → Term
rdfs name = iri (codes "http://www.w3.org/2000/01/rdf-schema#" ++ codes name)

abbrev pub a_type : Term
a_type = iri rdf_type

-- `_PHYS_NAMESPACES`
abbrev pub phys_namespaces : List Str
phys_namespaces = map codes (
    "http://arangodb.com/schema/physical#" ∷ "https://arango.solutions/phys#"
    ∷ "https://arango-schema-mapper.example.org/phys#" ∷ [])

-- `CLASS_MAPPING_STYLES`
abbrev pub class_mapping_styles : List Str
class_mapping_styles =
    map codes
      ("COLLECTION" ∷ "DOCUMENT" ∷ "LABEL" ∷ "LABELS" ∷ "MULTI_LABEL" ∷ "RPT" ∷ "UNION" ∷ [])

abbrev is_separator : ℕ → Bool
is_separator c = c == 35 || c == 47

abbrev here_or_later : ℕ → Str → Option Str → Option Str
here_or_later c s (some found) = some found
here_or_later c s none = if is_separator c then some s else none

-- what follows the last `#` or `/`
unfoldable pub after_separator : Str → Option Str
after_separator [] = none
after_separator (c ∷ s) = here_or_later c s (after_separator s)

abbrev pub local_or : Str → Option Str → Str
local_or whole none = whole
local_or whole (some []) = whole
local_or whole (some (c ∷ s)) = c ∷ s

unfoldable pub local_name : Str → Str
local_name whole = local_or whole (after_separator whole)

abbrev pub or_default : Str → Option Str → Str
or_default d none = d
or_default d (some s) = s

abbrev pub or_text : Str → Option Str → Str
or_text d none = d
or_text d (some []) = d
or_text d (some (c ∷ s)) = c ∷ s

abbrev pub given_text : Option Str → Bool
given_text none = false
given_text (some s) = not (is_nil s)

abbrev pub or_first : Option Term → Option Str → Option Str
or_first none later = later
or_first (some t) later = some (term_text t)

abbrev pub iri_texts : List Term → List Str
iri_texts [] = []
iri_texts (iri s ∷ ts) = s ∷ iri_texts ts
iri_texts (t ∷ ts) = iri_texts ts

-- `sorted` of a set
abbrev pub distinct : List Str → List Str
distinct [] = []
distinct (s ∷ ss) = let rest = distinct ss in if contains s ss then rest else s ∷ rest

abbrev pub is_label_style : Option Str → Bool
is_label_style none = false
is_label_style (some s) = s == codes "LABELS" || s == codes "MULTI_LABEL"

abbrev pub is_style : String → Option Str → Bool
is_style name none = false
is_style name (some s) = s == codes name

abbrev pub known_style : Option Str → Bool
known_style none = true
known_style (some s) = contains s class_mapping_styles

-- A class as `look`, the reading of its annotations, gives it.
module _ (look : String → Option Str) where
  abbrev pub with_columns : Str → ResolvedClass → ResolvedClass
  with_columns k c = record c {
    subject_column = or_default c.subject_column (look "subjectColumn");
    predicate_column = or_default c.predicate_column (look "predicateColumn");
    object_uri_column = or_default c.object_uri_column (look "objectUriColumn");
    object_value_column = or_default c.object_value_column (look "objectValueColumn");
  }

  -- a class with its type test
  abbrev pub labelled : Str → ResolvedClass → Option Str → Result ResolvedClass
  labelled k c none = err schema_error
  labelled k c (some labels) = ok (record c {
    type_field = some labels;
    type_value = some (or_text (local_name k) (look "labelValue"));
    type_field_is_array = some true;
  })

  abbrev pub type_tested : Str → ResolvedClass → Result ResolvedClass
  type_tested k c =
      if is_label_style c.style
      then labelled k c (look "labelsField")
      else ok (record c {
        type_field = look "typeField";
        type_value = look "typeValue";
        type_field_is_array = parse_flag (look "typeFieldIsArray");
      })

  -- the collection, where there is no `phys:collectionName`
  abbrev pub unnamed_collection : Str → Option Str → Str
  unnamed_collection k style =
      if is_style "RPT" style
      then or_text (codes "_triples") (look "triplesCollection")
      else local_name k

  module _ (cfg : Config) where
    abbrev pub untested_class : Str → Option Str → Str → ResolvedClass
    untested_class k style collection = with_columns k (record (plain_class k collection) {
      style = style;
      tenant_field = look "tenantField";
      tenant_entity = look "tenantEntity";
      shard_family = get collection cfg.families;
    })

    abbrev pub stored_class : Str → Option Str → Str → Result ResolvedClass
    stored_class k style collection = type_tested k (untested_class k style collection)

    abbrev pub supertype : Str → Option Str → ResolvedClass
    supertype k style = record (plain_class k []) {
      style = style;
      tenant_field = look "tenantField";
      tenant_entity = look "tenantEntity";
    }

    abbrev pub styled_class : Str → Option Str → Option Str → List Fallback × Result ResolvedClass
    styled_class k style (some physical) = ([], stored_class k style physical)
    styled_class k style none = (
      record { code = codes "W_SCHEMA_DEFAULT_COLLECTION"; of_iri = k; instead = local_name k }
          ∷ [],
      stored_class k style (unnamed_collection k style),
    )

    abbrev pub declared_class : Str → Option Str → List Fallback × Result ResolvedClass
    declared_class k style =
        if not (known_style style)
        then ([], err schema_error)
        else if is_style "UNION" style
        then ([], ok (supertype k style))
        else styled_class k style (look "collectionName")

module _ (r : Rdf) (g : r.Graph) where
  -- a `phys:` annotation in the first of the namespaces that has it
  unfoldable pub annotation : List Str → Str → String → Option Str
  annotation [] k name = none
  annotation (ns ∷ nss) k name =
      or_first (r.value (iri k) (iri (ns ++ codes name)) g) (annotation nss k name)

  -- `_physical_string`
  abbrev pub physical_string : Str → String → Option Str
  physical_string k name = annotation phys_namespaces k name

  abbrev pub has_type : Str → String → Bool
  has_type k name = r.holds (triple (iri k) a_type (owl name)) g

  module _ (cfg : Config) where
    abbrev pub undeclared_class : Str → List Fallback × Result ResolvedClass
    undeclared_class k = if not cfg.permissive then ([], err schema_error) else (
      record {
        code = codes "W_SCHEMA_UNMAPPED_CLASS";
        of_iri = k;
        instead = cfg.default_collection;
      }
          ∷ [],
      ok (record (plain_class k cfg.default_collection) {
        shard_family = get cfg.default_collection cfg.families;
      }),
    )

    -- `_resolve_class`: the advisories that it raises, and what it returns
    unfoldable pub resolve_class : Str → List Fallback × Result ResolvedClass
    resolve_class k =
        if has_type k "Class"
        then declared_class (physical_string k) cfg k (physical_string k "mappingStyle")
        else undeclared_class k
