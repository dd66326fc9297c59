-- ===== src/Mapping.antt =====
-- arango_sparql/translate/mapping.py: the wire form of a mapping bundle, a JSON object, and its reading.
pub mod Names
pub mod Rename
pub mod Physical
pub mod Round
mod Tests
use arango_sparql_py.Base.{
  ℕ, String, ◌≡◌, Bool, true, false, not, ◌||◌, ◌&&◌, Option, none, some, List, [], ◌∷◌, ◌++◌, map,
  refl,
}
use arango_sparql_py.Base.Tests.{if◌then◌else◌, ltb, leb, is_some}
use arango_sparql_py.Base.Eq.{◌==◌, nat_eq, list_eq}
use arango_sparql_py.Base.Lists.{any, all, length, contains, is_nil}
use arango_sparql_py.Base.Dict.{Dict, get, put, has, set_default}
use arango_sparql_py.Base.Json.{
  Json, Items, Fields, items, entries, dict, as_fields, truthy, or_null, is_null, optional_text,
}
use arango_sparql_py.Base.Str.{Str, codes, is_letter, is_digit}
use arango_sparql_py.Errors.{Error, Result, ◌>>=◌}
use Json.{null, boolean, integer, float, text, array, object}
use Items.{nil, cons}
use Fields.{end, field}
use Error.{mapping_error, type_error}
use Result.{ok, err}
use arango_sparql_py.Mapping.Names.{
  without_newline, collection_char, starts_collection, is_valid_collection_name, field_char,
  is_valid_field_name, valid_segments, path_segments, single_field, located, property_field_path,
}

pub record MappingSource : Type 0 where
  pub kind : Str
  pub notes : Option Str

pub record MappingBundle : Type 0 where
  pub conceptual_schema : Dict Str Json
  pub physical_mapping : Dict Str Json
  pub metadata : Dict Str Json
  pub owl_turtle : Option Str
  pub source : Option MappingSource

abbrev pub no_bundle : MappingBundle
no_bundle = record {
  conceptual_schema = [];
  physical_mapping = [];
  metadata = [];
  owl_turtle = none;
  source = none;
}

abbrev pub top_level_aliases : Dict Str Str
top_level_aliases =
    map (λ (e : String × String). (codes e.0, codes e.1))
      (("conceptualSchema", "conceptual_schema")
        ∷ ("conceptual_schema", "conceptual_schema")
        ∷ ("physicalMapping", "physical_mapping")
        ∷ ("physical_mapping", "physical_mapping")
        ∷ ("metadata", "metadata")
        ∷ ("owlTurtle", "owl_turtle")
        ∷ ("owl_turtle", "owl_turtle")
        ∷ ("source", "source")
        ∷ [])

abbrev pub spec_field_aliases : Dict Str Str
spec_field_aliases =
    map (λ (e : String × String). (codes e.0, codes e.1))
      (("collection_name", "collectionName")
        ∷ ("edge_collection_name", "edgeCollectionName")
        ∷ ("type_field", "typeField")
        ∷ ("type_value", "typeValue")
        ∷ ("type_field_is_array", "typeFieldIsArray")
        ∷ ("triples_collection", "triplesCollection")
        ∷ ("subject_column", "subjectColumn")
        ∷ ("predicate_column", "predicateColumn")
        ∷ ("object_uri_column", "objectUriColumn")
        ∷ ("object_value_column", "objectValueColumn")
        ∷ ("tenant_field", "tenantField")
        ∷ ("tenant_entity", "tenantEntity")
        ∷ ("from_entity", "fromEntity")
        ∷ ("to_entity", "toEntity")
        ∷ [])

abbrev pub valid_source_kinds : List Str
valid_source_kinds =
    map codes ("analyzer" ∷ "heuristic" ∷ "manual" ∷ "imported_owl" ∷ "imported_csi" ∷ [])

abbrev pub or_same : Str → Option Str → Str
or_same k none = k
or_same k (some c) = c

unfoldable pub top_name : Str → Str
top_name k = or_same k (get k top_level_aliases)

unfoldable pub spec_name : Bool → Str → Str
spec_name relationship k =
    if relationship && (k == codes "collectionName" || k == codes "collection_name")
    then codes "edgeCollectionName"
    else or_same k (get k spec_field_aliases)

-- The entries under their canonical names, each of which may come once.
unfoldable pub renamed : (Str → Str) → Dict Str Json → Dict Str Json → Result (Dict Str Json)
renamed name out [] = ok out
renamed name out ((k, j) ∷ d) =
    let rest = renamed name (put (name k) j out) d in
    if has (name k) out then err mapping_error else rest

abbrev pub normalise_top_level : Dict Str Json → Result (Dict Str Json)
normalise_top_level d = renamed top_name [] d

unfoldable pub check_paths : Dict Str Json → Result (Unit {0})
check_paths [] = ok tt
check_paths ((k, j) ∷ d) = property_field_path j >>= λ path. check_paths d

abbrev pub check_properties : Option Json → Result (Unit {0})
check_properties (some (object fs)) = check_paths (entries fs)
check_properties _ = ok tt

abbrev pub check_spec : Bool → Dict Str Json → Result (Dict Str Json)
check_spec true out = ok out
check_spec false out = check_properties (get (codes "properties") out) >>= λ _. ok out

-- `_normalise_spec`; the flag is whether the spec is a relationship's
unfoldable pub normalise_spec : Bool → Json → Result (Dict Str Json)
normalise_spec relationship (object fs) =
    renamed (spec_name relationship) [] (entries fs) >>= check_spec relationship
normalise_spec relationship _ = err mapping_error

unfoldable pub normalise_specs : Bool → Dict Str Json → Result (Dict Str Json)
normalise_specs relationship [] = ok []
normalise_specs relationship ((label, spec) ∷ d) = normalise_spec relationship spec >>= λ out.
    normalise_specs relationship d >>= λ rest. ok ((label, dict out) ∷ rest)

abbrev pub as_dict : Json → Result (Dict Str Json)
as_dict (object fs) = ok (entries fs)
as_dict _ = err mapping_error

-- `d.get(k) or {}`, which has to be a dict
abbrev pub dict_or_empty : Option Json → Result (Dict Str Json)
dict_or_empty o = if truthy (or_null o) then as_dict (or_null o) else ok []

unfoldable pub is_part : Str → Bool
is_part k = k == codes "entities" || k == codes "relationships"

-- `out.setdefault(k, v)` for the other keys
unfoldable pub with_extras : Dict Str Json → Dict Str Json → Dict Str Json
with_extras out [] = out
with_extras out ((k, j) ∷ d) = with_extras (if is_part k then out else (set_default k j out).1) d

abbrev pub parts : Dict Str Json → Dict Str Json → Dict Str Json
parts entities relationships =
    (codes "entities", dict entities) ∷ (codes "relationships", dict relationships) ∷ []

-- `_normalise_physical_mapping` of a dict
unfoldable pub normalise_physical_mapping : Dict Str Json → Result (Dict Str Json)
normalise_physical_mapping pm = dict_or_empty (get (codes "entities") pm) >>= λ entities.
    dict_or_empty (get (codes "relationships") pm) >>= λ relationships.
    normalise_specs false entities >>= λ es.
    normalise_specs true relationships >>= λ rs. ok (with_extras (parts es rs) pm)

abbrev pub physical_of : Json → Result (Dict Str Json)
physical_of null = ok (parts [] [])
physical_of (object end) = ok (parts [] [])
physical_of (object (field k j fs)) = normalise_physical_mapping ((k, j) ∷ entries fs)
physical_of _ = err mapping_error

abbrev pub text_or_none : Json → Result (Option Str)
text_or_none null = ok none
text_or_none (text s) = ok (some s)
text_or_none _ = err mapping_error

-- A list or a dict cannot be looked up in a set.
abbrev pub source_kind : Json → Result Str
source_kind (text s) = if contains s valid_source_kinds then ok s else err mapping_error
source_kind (array js) = err type_error
source_kind (object fs) = err type_error
source_kind _ = err mapping_error

-- `_normalise_source`, where there is a source
abbrev pub normalise_source : Json → Result (Option MappingSource)
normalise_source null = ok none
normalise_source (object fs) = source_kind (or_null (get (codes "kind") (entries fs))) >>= λ kind.
    text_or_none (or_null (get (codes "notes") (entries fs))) >>= λ notes.
    ok (some (record { kind = kind; notes = notes }))
normalise_source _ = err mapping_error

unfoldable pub bundle_of : Dict Str Json → Result MappingBundle
bundle_of top = dict_or_empty (get (codes "conceptual_schema") top) >>= λ conceptual.
    physical_of (or_null (get (codes "physical_mapping") top)) >>= λ physical.
    dict_or_empty (get (codes "metadata") top) >>= λ metadata.
    text_or_none (or_null (get (codes "owl_turtle") top)) >>= λ owl_turtle.
    normalise_source (or_null (get (codes "source") top)) >>= λ source. ok (record {
      conceptual_schema = conceptual;
      physical_mapping = physical;
      metadata = metadata;
      owl_turtle = owl_turtle;
      source = source;
    })

-- `mapping_from_wire_dict`, of Python's None as JSON's null
unfoldable pub mapping_from_wire_dict : Json → Result MappingBundle
mapping_from_wire_dict null = ok no_bundle
mapping_from_wire_dict (object fs) = normalise_top_level (entries fs) >>= bundle_of
mapping_from_wire_dict _ = err mapping_error

abbrev pub text_part : String → Option Str → Dict Str Json
text_part k none = []
text_part k (some s) = (codes k, text s) ∷ []

abbrev pub source_part : Option MappingSource → Dict Str Json
source_part none = []
source_part (some s) =
    (codes "source", dict ((codes "kind", text s.kind) ∷ text_part "notes" s.notes)) ∷ []

-- `mapping_to_wire_dict`
unfoldable pub mapping_to_wire_dict : MappingBundle → Json
mapping_to_wire_dict b = dict (
    (codes "conceptualSchema", dict b.conceptual_schema)
    ∷ (codes "physicalMapping", dict b.physical_mapping)
    ∷ (codes "metadata", dict b.metadata)
    ∷ (text_part "owlTurtle" b.owl_turtle ++ source_part b.source))

-- `MappingBundle.entities` and `MappingBundle.relationships`
abbrev pub dict_or_none : Option Json → Dict Str Json
dict_or_none (some (object fs)) = entries fs
dict_or_none _ = []

unfoldable pub entities : MappingBundle → Dict Str Json
entities b = dict_or_none (get (codes "entities") b.physical_mapping)

unfoldable pub relationships : MappingBundle → Dict Str Json
relationships b = dict_or_none (get (codes "relationships") b.physical_mapping)
