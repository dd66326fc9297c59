-- ===== src/Aql/Names.antt =====
-- The module-level functions of arango_sparql/translate/builder.py: which names AQL takes bare,
-- how the others are quoted, and the tests on a document's identity and type.
pub mod Quoting
use arango_sparql_py.Base.{
  ℕ, Bool, true, false, not, ◌&&◌, ◌||◌, Option, none, some, List, [], ◌∷◌, ◌++◌, map, refl, ◌≡◌,
}
use arango_sparql_py.Base.Tests.{if◌then◌else◌}
use arango_sparql_py.Base.Eq.{◌==◌, nat_eq, list_eq}
use arango_sparql_py.Base.Lists.{contains, is_nil, all, length}
use arango_sparql_py.Base.Str.{
  Str, codes, is_letter, is_ident_start, is_ident_char, lower_char, strip, chars,
}
use arango_sparql_py.Errors.{Result, ok, err, value_error, unsupported_error, aql_emit_error, ◌>>=◌}

-- `[A-Za-z0-9_]*$`: Python's `$` also matches before a newline that ends the text.
unfoldable pub ident_tail : Str → Bool
ident_tail [] = true
ident_tail (c ∷ s) =
    let rest = ident_tail s in if is_ident_char c then rest else c == 10 && is_nil s

-- `_AQL_IDENT_RE.match`
unfoldable pub matches_ident : Str → Bool
unfolding ident_tail
matches_ident [] = false
matches_ident (c ∷ s) = is_ident_start c && ident_tail s

-- `_AQL_BARE_ATTRIBUTE_RE.match`: underscores, then a letter, then identifier characters
unfoldable pub matches_bare_attribute : Str → Bool
unfolding ident_tail
matches_bare_attribute [] = false
matches_bare_attribute (c ∷ s) =
    let rest = matches_bare_attribute s in
    if is_letter c then ident_tail s else if c == 95 then rest else false

abbrev pub aql_reserved_names : List Str
aql_reserved_names = map codes (
    "aggregate" ∷ "all" ∷ "all_shortest_paths" ∷ "and" ∷ "any" ∷ "asc" ∷ "collect" ∷ "desc"
    ∷ "distinct" ∷ "false" ∷ "filter" ∷ "for" ∷ "graph" ∷ "in" ∷ "inbound" ∷ "insert" ∷ "into"
    ∷ "k_paths" ∷ "k_shortest_paths" ∷ "let" ∷ "like" ∷ "limit" ∷ "none" ∷ "not" ∷ "null" ∷ "or"
    ∷ "outbound" ∷ "remove" ∷ "replace" ∷ "return" ∷ "shortest_path" ∷ "sort" ∷ "true" ∷ "update"
    ∷ "upsert" ∷ "window" ∷ "with" ∷ [])

-- Lower case is the ASCII one: the test is reached only by a name that the pattern above accepts.
unfoldable pub is_aql_identifier : Str → Bool
unfolding matches_bare_attribute
is_aql_identifier name =
    matches_bare_attribute name && not (contains (map lower_char name) aql_reserved_names)

unfoldable pub can_backtick_quote : Str → Bool
can_backtick_quote name = not (is_nil name) && not (contains 96 name) && not (contains 92 name)

unfoldable pub object_key : Str → Result Str
object_key name =
    if is_aql_identifier name
    then ok name
    else if not (can_backtick_quote name)
    then err aql_emit_error
    else ok (96 ∷ (name ++ 96 ∷ []))

unfoldable pub attribute_ref : Str → Str → Result Str
attribute_ref alias name =
    if is_aql_identifier name
    then ok (alias ++ 46 ∷ name)
    else if not (can_backtick_quote name)
    then err unsupported_error
    else ok (alias ++ 46 ∷ 96 ∷ (name ++ 96 ∷ []))

-- the loop of `attribute_path_ref`
unfoldable pub path_ref_from : Str → List Str → Result Str
path_ref_from ref [] = ok ref
path_ref_from ref (segment ∷ path) = do next ← attribute_ref ref segment; path_ref_from next path

unfoldable pub attribute_path_ref : Str → List Str → Result Str
attribute_path_ref alias [] = err value_error
attribute_path_ref alias (segment ∷ path) = path_ref_from alias (segment ∷ path)

unfoldable subject_ref : Str → Str
subject_ref alias = codes "NOT_NULL(" ++ alias ++ codes "._uri, " ++ alias ++ codes "._id)"

unfoldable subject_matches : Str → Str → Str
subject_matches alias rhs =
    codes "("
    ++ alias
    ++ codes "._uri == "
    ++ rhs
    ++ codes " || ("
    ++ alias
    ++ codes "._uri == null && "
    ++ alias
    ++ codes "._id == "
    ++ rhs
    ++ codes "))"

unfoldable subject_matches_value : Str → Str → Str
unfolding subject_matches
subject_matches_value alias value =
    codes "(" ++ value ++ codes " != null && " ++ subject_matches alias value ++ codes ")"

unfoldable subject_in : Str → Str → Str
subject_in alias values =
    codes "("
    ++ alias
    ++ codes "._uri IN "
    ++ values
    ++ codes " || ("
    ++ alias
    ++ codes "._uri == null && "
    ++ alias
    ++ codes "._id IN "
    ++ values
    ++ codes "))"

unfoldable type_predicate : Str → Str → Str → Option Bool → Result Str
type_predicate alias field value_bind is_array = do
  ref ← attribute_ref alias field
  ok (form ref is_array)
  where
    form : Str → Option Bool → Str
    form ref (some true) = value_bind ++ codes " IN " ++ ref
    form ref (some false) = ref ++ codes " == " ++ value_bind
    form ref none =
        codes "("
        ++ ref
        ++ codes " == "
        ++ value_bind
        ++ codes " || "
        ++ value_bind
        ++ codes " IN "
        ++ ref
        ++ codes ")"

-- ASCII lower case: no other character's lower case is a letter of these words.
unfoldable pub parse_flag : Option Str → Option Bool
parse_flag none = none
parse_flag (some value) =
    let lowered = map lower_char (strip value) in
    if contains lowered (map codes ("true" ∷ "1" ∷ "yes" ∷ []))
    then some true
    else if contains lowered (map codes ("false" ∷ "0" ∷ "no" ∷ []))
    then some false
    else none

parse_flag_tests :
    (parse_flag (some (codes " TRUE ")) ≡ some true)
    × (parse_flag (some (codes "no")) ≡ some false)
    × (parse_flag (some (codes "maybe")) ≡ none)
unfolding parse_flag strip chars
parse_flag_tests = (refl, refl, refl)

attribute_ref_tests :
    (attribute_ref (codes "doc") (codes "name") ≡ ok (codes "doc.name"))
    × (attribute_ref (codes "doc") (codes "_2") ≡ ok (codes "doc.`_2`"))
    × (attribute_ref (codes "doc") (codes "Filter") ≡ ok (codes "doc.`Filter`"))
    × (attribute_ref (codes "doc") (codes "a`b") ≡ err unsupported_error)
unfolding attribute_ref is_aql_identifier can_backtick_quote chars
attribute_ref_tests = (refl, refl, refl, refl)
