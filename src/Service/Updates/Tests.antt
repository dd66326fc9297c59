-- ===== src/Service/Updates/Tests.antt =====
-- The theorems on the detection of Updates (arango_sparql/service/protocol/update_detect.py).
use arango_sparql_py.Base.{ℕ, ◌≡◌, Bool, true, false, ◌∷◌, ◌++◌, refl}
use arango_sparql_py.Base.Str.{codes, chars, lstrip}
use arango_sparql_py.Service.Updates.{
  iri_length, literal_length, slot_at, advance, swap_from, strip_comments, match_word, skip_prefix,
  match_prologue, strip_prologue, strip_prologue_and_comments, first_token, finds_keyword,
  is_sparql_update,
}
use arango_sparql_py.Service.Updates.Keywords.{keyword_is_detected}

abbrev no_word : ℕ → Bool
no_word c = false

unfoldable running : Unit {0}
unfolding iri_length literal_length slot_at advance swap_from strip_comments match_word skip_prefix
    match_prologue strip_prologue strip_prologue_and_comments first_token finds_keyword
    is_sparql_update chars lstrip
running = tt

detect_tests :
    (is_sparql_update no_word (codes "PREFIX a: <http://x#> # c INSERT\n insert DATA {}") ≡ true)
    × (is_sparql_update no_word (codes "SELECT * { ?s ?p 'INSERT' }") ≡ false)
    × (is_sparql_update no_word (codes "WITH <g> delete { }") ≡ true)
    × (is_sparql_update no_word (codes "PREFIX : <http://x> INSERT DATA {}") ≡ false)
    × (is_sparql_update no_word (codes "INSERT{ } WHERE { }") ≡ false)
    × (strip_comments (codes "a <b#c> 'd\\'#' #e") ≡ codes "a <b#c> 'd\\'#' ")
unfolding running
detect_tests = (refl, refl, refl, refl, refl, refl)

keyword_is_detected_example :
    is_sparql_update no_word (codes "Insert" ++ 32 ∷ codes "DATA {}") ≡ true
unfolding chars
keyword_is_detected_example =
    keyword_is_detected no_word (codes "Insert") (codes "DATA {}") 32 refl refl
