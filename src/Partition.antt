-- ===== src/Partition.antt =====
-- arango_sparql/partition.py: how the seed rows of a federated partition are written into its query as
-- a VALUES clause.
pub mod Reader
pub mod Quoting
pub mod Terms
pub mod Words
mod Tests
use arango_sparql_py.Base.{
  ℕ, zero, suc, ◌≤◌, ◌≡◌, String, Bool, true, false, not, ◌||◌, ◌&&◌, Option, none, some, List, [],
  ◌∷◌, ◌++◌, refl,
}
use arango_sparql_py.Base.Tests.{if◌then◌else◌, ltb, leb}
use arango_sparql_py.Base.Eq.{◌==◌, nat_eq, list_eq}
use arango_sparql_py.Base.Lists.{any, is_nil}
use arango_sparql_py.Base.Dict.{Dict, get, put}
use arango_sparql_py.Base.Str.{Str, codes, is_space}
use arango_sparql_py.Errors.{Error, Result, ◌>>=◌}
use Error.{unsupported_error}
use Result.{ok, err}

-- A seed cell: Python's None, a URIRef, a Literal with its text, datatype and language, a dict with
-- `type`, `value`, `datatype` and its language entries, a bool, an int or a float by the text that str
-- or repr gives it, a str, or a value of another type.
pub data SeedValue : Type 0 where
  unbound : SeedValue
  uri_ref : Str → SeedValue
  literal : Str → Option Str → Option Str → SeedValue
  binding : Option Str → Option Str → Option Str → Option Str → Option Str → SeedValue
  boolean : Bool → SeedValue
  number : Str → SeedValue
  text : Str → SeedValue
  other : SeedValue

-- `s.replace(c, t)` for one character
unfoldable pub replaced : ℕ → Str → Str → Str
replaced x t [] = []
replaced x t (c ∷ s) = (if c == x then t else c ∷ []) ++ replaced x t s

unfoldable pub escaped : Str → Str
escaped s = replaced 9 (codes "\\t") (
    replaced 13 (codes "\\r")
      (replaced 10 (codes "\\n") (replaced 34 (codes "\\\"") (replaced 92 (codes "\\\\") s))))

unfoldable pub escape_literal : Str → Str
escape_literal s = 34 ∷ escaped s ++ 34 ∷ []

-- `_IRI_UNSAFE_RE`
unfoldable pub is_unsafe : ℕ → Bool
is_unsafe c = is_space c || any (λ x. x == c) (codes "<>\"{}|^`\\")

unfoldable pub iri : Str → Result Str
iri s = if any is_unsafe s then err unsupported_error else ok (60 ∷ s ++ 62 ∷ [])

-- a value that Python takes for false counts as absent
abbrev pub truthy : Option Str → Option Str
truthy none = none
truthy (some []) = none
truthy (some (c ∷ s)) = some (c ∷ s)

abbrev pub truthy_or : Option Str → Option Str → Option Str
truthy_or none o = o
truthy_or (some s) o = some s

-- a literal with the datatype, else the language, that it has
unfoldable pub literal_to_sparql : Str → Option Str → Option Str → Result Str
literal_to_sparql lex (some datatype) lang =
    iri datatype >>= λ written. ok (escape_literal lex ++ codes "^^" ++ written)
literal_to_sparql lex none (some lang) = ok (escape_literal lex ++ 64 ∷ lang)
literal_to_sparql lex none none = ok (escape_literal lex)

-- `str(lex)`
abbrev pub lexical : Option Str → Str
lexical none = codes "None"
lexical (some lex) = lex

abbrev pub is_kind : String → Option Str → Bool
is_kind name none = false
is_kind name (some kind) = kind == codes name

unfoldable pub binding_to_sparql :
    Option Str → Option Str → Option Str → Option Str → Option Str → Result Str
binding_to_sparql kind lex datatype xml_lang lang =
    if is_kind "uri" kind
    then iri (lexical lex)
    else if is_kind "literal" kind || is_kind "typed-literal" kind
    then literal_to_sparql (lexical lex) (truthy datatype)
        (truthy (truthy_or (truthy xml_lang) lang))
    else err unsupported_error

-- `_term_to_sparql`
unfoldable pub term_to_sparql : SeedValue → Result Str
term_to_sparql unbound = ok (codes "UNDEF")
term_to_sparql (uri_ref s) = iri s
term_to_sparql (literal lex datatype lang) = literal_to_sparql lex datatype (truthy lang)
term_to_sparql (binding kind lex datatype xml_lang lang) =
    binding_to_sparql kind lex datatype xml_lang lang
term_to_sparql (boolean true) = ok (codes "true")
term_to_sparql (boolean false) = ok (codes "false")
term_to_sparql (number s) = ok s
term_to_sparql (text s) = ok (escape_literal s)
term_to_sparql other = err unsupported_error
