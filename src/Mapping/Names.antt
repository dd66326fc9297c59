-- ===== src/Mapping/Names.antt =====
-- The identifiers and property fields that arango_sparql/translate/mapping.py takes from a wire form.
use arango_sparql_py.Base.{ℕ, Bool, false, not, ◌||◌, ◌&&◌, Option, none, some, List, [], ◌∷◌}
use arango_sparql_py.Base.Tests.{if◌then◌else◌, leb}
use arango_sparql_py.Base.Eq.{◌==◌, nat_eq, list_eq}
use arango_sparql_py.Base.Lists.{all, length, is_nil}
use arango_sparql_py.Base.Dict.{get}
use arango_sparql_py.Base.Json.{Json, Items, items, entries, or_null, is_null}
use arango_sparql_py.Base.Str.{Str, codes, is_letter, is_digit}
use arango_sparql_py.Errors.{Error, Result, ◌>>=◌}
use Json.{null, text, array, object}
use Items.{cons}
use Error.{mapping_error}
use Result.{ok, err}

-- Python's `$` also matches before a last newline.
unfoldable pub without_newline : Str → Str
without_newline [] = []
without_newline (c ∷ []) = if c == 10 then [] else c ∷ []
without_newline (c ∷ d ∷ s) = c ∷ without_newline (d ∷ s)

unfoldable pub collection_char : ℕ → Bool
collection_char c = is_letter c || is_digit c || c == 95 || c == 45

unfoldable pub starts_collection : Str → Bool
starts_collection [] = false
starts_collection (c ∷ s) = (is_letter c || c == 95) && all collection_char s

-- `is_valid_collection_name`
unfoldable pub is_valid_collection_name : Json → Bool
is_valid_collection_name (text s) =
    let name = without_newline s in starts_collection name && leb (length name) 256
is_valid_collection_name _ = false

unfoldable pub field_char : ℕ → Bool
field_char c = leb 32 c && not (c == 96)

-- `is_valid_field_name`
unfoldable pub is_valid_field_name : Json → Bool
is_valid_field_name (text s) =
    let name = without_newline s in
    all field_char name && not (is_nil name) && leb (length name) 256
is_valid_field_name _ = false

unfoldable pub valid_segments : List Json → Result (List Str)
valid_segments [] = ok []
valid_segments (text s ∷ js) =
    if is_valid_field_name (text s)
    then (valid_segments js >>= λ rest. ok (s ∷ rest))
    else err mapping_error
valid_segments (j ∷ js) = err mapping_error

abbrev pub path_segments : Json → Result (Option (List Str))
path_segments (array (cons j js)) = valid_segments (j ∷ items js) >>= λ path. ok (some path)
path_segments _ = err mapping_error

abbrev pub single_field : Json → Option (List Str)
single_field (text (c ∷ s)) = some ((c ∷ s) ∷ [])
single_field _ = none

abbrev pub located : Json → Json → Result (Option (List Str))
located named null = ok (single_field named)
located named path = if is_null named then path_segments path else err mapping_error

-- `property_field_path`
unfoldable pub property_field_path : Json → Result (Option (List Str))
property_field_path (object fs) =
    located (or_null (get (codes "field") (entries fs))) (or_null (get (codes "path") (entries fs)))
property_field_path _ = ok none
