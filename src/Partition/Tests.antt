-- ===== src/Partition/Tests.antt =====
-- Seed cells of arango_sparql/partition.py, written and read.
use arango_sparql_py.Base.{◌≡◌, false, none, some, ◌∷◌, ◌++◌, refl}
use arango_sparql_py.Base.Eq.{nat_eq, list_eq}
use arango_sparql_py.Base.Str.{Str, codes, is_space, is_letter, is_digit}
use arango_sparql_py.Errors.{Error, Result}
use Error.{unsupported_error}
use Result.{ok, err}
use arango_sparql_py.Partition.{
  SeedValue, replaced, escaped, escape_literal, is_unsafe, iri, literal_to_sparql,
  binding_to_sparql, term_to_sparql,
}
use arango_sparql_py.Partition.Reader.{
  Term, has_code_point, unescaped, read_string, in_iri, read_iri, read_run, tag_char, is_subtags,
  is_tag, word_char, is_digits, is_fraction, is_unsigned, read_term,
}
use Term.{tagged, word}
use arango_sparql_py.Partition.Terms.{denoted, term_to_sparql-Reads}
use SeedValue.{uri_ref, binding}

-- a quote, a backslash and the end of a row, as a result in English of an earlier query
abbrev hostile : SeedValue
hostile = binding (some (codes "literal")) (some (codes "a\"\\) }")) none none (some (codes "en"))

abbrev written : Str
written = 34 ∷ codes "a\\\"\\\\) }\"@en"

term_to_sparql-Reads_example :
    (has_code_point written ≡ false)
    × (read_term (written ++ 41 ∷ codes " }") ≡ some (denoted hostile, 41 ∷ codes " }"))
unfolding term_to_sparql binding_to_sparql literal_to_sparql escape_literal escaped replaced
    has_code_point is_tag is_subtags is_letter is_digit
term_to_sparql-Reads_example = term_to_sparql-Reads 41 (codes " }") refl hostile written refl refl

-- a language tag ends where its characters do
tag_test :
    read_term ((34 ∷ codes "a\"@en") ++ 10 ∷ 34 ∷ codes "x\"")
    ≡ some (tagged (codes "a") (codes "en"), 10 ∷ 34 ∷ codes "x\"")
unfolding read_term read_string unescaped read_run tag_char is_tag is_subtags is_letter is_digit
tag_test = refl

bad_iri_test : read_term (codes "<a b>") ≡ none
unfolding read_term read_iri in_iri
bad_iri_test = refl

number_test : read_term (codes "-1.5e-07)") ≡ some (word (codes "-1.5e-07"), codes ")")
unfolding read_term read_run word_char is_unsigned is_fraction is_digits is_letter is_digit
number_test = refl

infinity_test : read_term (codes "inf)") ≡ none
unfolding read_term read_run word_char is_unsigned is_fraction is_digits is_letter is_digit
infinity_test = refl

iri_test : term_to_sparql (uri_ref (codes "http://a> <b")) ≡ err unsupported_error
unfolding term_to_sparql iri is_unsafe is_space
iri_test = refl

-- a language tag is written as it comes, even where it ends the row and the clause
language_test :
    term_to_sparql
      (binding (some (codes "literal")) (some (codes "a")) none (some (codes "en) } #")) none)
    ≡ ok (codes "\"a\"@en) } #")
unfolding term_to_sparql binding_to_sparql literal_to_sparql escape_literal escaped replaced
language_test = refl
