-- ===== src/Mapping/Tests.antt =====
-- Wire forms that arango_sparql/translate/mapping.py reads.
use arango_sparql_py.Base.{◌≡◌, true, false, none, some, [], ◌∷◌, refl}
use arango_sparql_py.Base.Dict.{Dict, get, put, set_default}
use arango_sparql_py.Base.Json.{Json, Items, dict, as_fields, entries, truthy}
use arango_sparql_py.Base.Str.{Str, codes}
use arango_sparql_py.Errors.{Error, Result}
use Json.{text, array, object}
use Error.{mapping_error, type_error}
use Result.{ok, err}
use arango_sparql_py.Mapping.{
  MappingBundle, no_bundle, parts, renamed, top_name, spec_name, normalise_spec, normalise_specs,
  is_part, with_extras, normalise_physical_mapping, bundle_of, mapping_from_wire_dict,
  mapping_to_wire_dict,
}
use arango_sparql_py.Mapping.Names.{is_valid_field_name, field_char, without_newline}
use arango_sparql_py.Mapping.Round.{wire_round_trip}

-- snake_case on the wire, and a key that the source does not know
abbrev wire : Dict Str Json
wire =
    (
      codes "physical_mapping",
      dict (
          (
            codes "entities",
            dict (
                (codes "Person", dict ((codes "collection_name", text (codes "people")) ∷ []))
                ∷ []),
          )
          ∷ (codes "shardFamilies", array Items.nil)
          ∷ []),
    )
    ∷ (codes "source", dict ((codes "kind", text (codes "manual")) ∷ []))
    ∷ []

abbrev people : MappingBundle
people = record no_bundle {
  physical_mapping =
      (
        codes "entities",
        dict ((codes "Person", dict ((codes "collectionName", text (codes "people")) ∷ [])) ∷ []),
      )
      ∷ (codes "relationships", dict [])
      ∷ (codes "shardFamilies", array Items.nil)
      ∷ [];
  source = some (record { kind = codes "manual"; notes = none });
}

reads : mapping_from_wire_dict (object (as_fields wire)) ≡ ok people
unfolding mapping_from_wire_dict bundle_of renamed top_name spec_name normalise_spec normalise_specs
    normalise_physical_mapping is_part with_extras set_default get put as_fields entries truthy
reads = refl

wire_round_trip_example : mapping_from_wire_dict (mapping_to_wire_dict people) ≡ ok people
wire_round_trip_example = wire_round_trip (as_fields wire) people reads

-- the empty bundle gets its two parts from the wire
empty_test :
    mapping_from_wire_dict (mapping_to_wire_dict no_bundle)
    ≡ ok (record no_bundle { physical_mapping = parts [] [] })
unfolding mapping_from_wire_dict mapping_to_wire_dict bundle_of renamed top_name normalise_specs get
    put as_fields entries truthy
empty_test = refl

-- two spellings of one field, and a kind that is a list
twice_test :
    normalise_spec false
      (dict ((codes "type_field", text (codes "t")) ∷ (codes "typeField", text (codes "t")) ∷ []))
    ≡ err mapping_error
unfolding normalise_spec renamed spec_name get put as_fields entries
twice_test = refl

kind_test :
    mapping_from_wire_dict
      (dict ((codes "source", dict ((codes "kind", array Items.nil) ∷ [])) ∷ []))
    ≡ err type_error
unfolding mapping_from_wire_dict bundle_of renamed top_name normalise_specs get put as_fields
    entries truthy
kind_test = refl

-- a last newline is let through
newline_test : is_valid_field_name (text (97 ∷ 10 ∷ [])) ≡ true
unfolding is_valid_field_name field_char without_newline
newline_test = refl
