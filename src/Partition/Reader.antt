-- ===== src/Partition/Reader.antt =====
-- A reader of SPARQL's terms, independent of arango_sparql/partition.py, which writes them: IRIs in
-- angle brackets, strings in double quotes with their escapes, language tags, datatypes in angle
-- brackets, numbers, true, false and UNDEF, each as long as the grammar lets it be. It reads nothing
-- else: no long string, no prefixed name, and no text with a code-point escape, which SPARQL replaces
-- before it reads.
use arango_sparql_py.Base.{ℕ, Bool, true, false, not, ◌&&◌, ◌||◌, Option, none, some, [], ◌∷◌}
use arango_sparql_py.Base.Tests.{if◌then◌else◌, ltb}
use arango_sparql_py.Base.Eq.{◌==◌, nat_eq, list_eq}
use arango_sparql_py.Base.Str.{Str, codes, starts_with, is_letter, is_digit}
use arango_sparql_py.Base.Lists.{drop, is_nil}

pub data Term : Type 0 where
  iri_term : Str → Term
  plain : Str → Term
  tagged : Str → Str → Term
  typed : Str → Str → Term
  word : Str → Term

-- whether a backslash stands before a u
abbrev pub starts_u : Str → Bool
starts_u [] = false
starts_u (c ∷ s) = c == 117 || c == 85

unfoldable pub has_code_point : Str → Bool
has_code_point [] = false
has_code_point (c ∷ s) = c == 92 && starts_u s || has_code_point s

-- what the letter of an escape stands for
unfoldable pub unescaped : ℕ → Option ℕ
unescaped c =
    if c == 116
    then some 9
    else if c == 114
    then some 13
    else if c == 110
    then some 10
    else if c == 98
    then some 8
    else if c == 102
    then some 12
    else if c == 34 || c == 39 || c == 92
    then some c
    else none

abbrev pub and_then : Option ℕ → Option (Str × Str) → Option (Str × Str)
and_then none o = none
and_then (some c) none = none
and_then (some c) (some (s, rest)) = some (c ∷ s, rest)

-- the rest of a string and what follows its closing quote; the flag is set after a backslash
unfoldable pub read_string : Bool → Str → Option (Str × Str)
read_string escape [] = none
read_string true (c ∷ s) = and_then (unescaped c) (read_string false s)
read_string false (c ∷ s) =
    let escape = read_string true s in
    let further = read_string false s in
    if c == 92
    then escape
    else if c == 34
    then some ([], s)
    else if c == 10 || c == 13
    then none
    else and_then (some c) further

-- a character of an IRI: above the space, and none of <>"{}|^`\
unfoldable pub in_iri : ℕ → Bool
in_iri c =
    ltb 32 c
    && not (
        c == 60
        || c == 62
        || c == 34
        || c == 123
        || c == 125
        || c == 124
        || c == 94
        || c == 96
        || c == 92)

-- the rest of an IRI and what follows its bracket
unfoldable pub read_iri : Str → Option (Str × Str)
read_iri [] = none
read_iri (c ∷ s) =
    let further = read_iri s in
    if c == 62 then some ([], s) else if in_iri c then and_then (some c) further else none

-- the longest run of such characters, and what follows it
unfoldable pub read_run : (ℕ → Bool) → Str → Str × Str
read_run p [] = ([], [])
read_run p (c ∷ s) =
    let further = read_run p s in if p c then (c ∷ further.0, further.1) else ([], c ∷ s)

-- a character of a language tag
unfoldable pub tag_char : ℕ → Bool
unfolding is_letter is_digit
tag_char c = is_letter c || is_digit c || c == 45

-- Letters, and then parts of letters and digits, each after a hyphen and none empty; the flag is set
-- within a part.
unfoldable pub is_subtags : Bool → Str → Bool
unfolding is_letter is_digit
is_subtags filled [] = filled
is_subtags filled (c ∷ s) =
    if c == 45
    then filled && is_subtags false s
    else (is_letter c || is_digit c) && is_subtags true s

unfoldable pub is_tag : Bool → Str → Bool
unfolding is_letter
is_tag filled [] = filled
is_tag filled (c ∷ s) =
    if c == 45 then filled && is_subtags false s else is_letter c && is_tag true s

-- a character of a number or of a keyword
unfoldable pub word_char : ℕ → Bool
unfolding is_letter is_digit
word_char c = is_letter c || is_digit c || c == 43 || c == 45 || c == 46 || c == 95

-- SPARQL's numbers: digits, with a point among them or none, and an exponent or none.
unfoldable pub is_digits : Bool → Str → Bool
unfolding is_digit
is_digits filled [] = filled
is_digits filled (c ∷ s) = is_digit c && is_digits true s

abbrev pub unsigned : Str → Str
unsigned [] = []
unsigned (c ∷ s) = if c == 43 || c == 45 then s else c ∷ s

-- after the point, and before it
unfoldable pub is_fraction : Bool → Str → Bool
unfolding is_digit
is_fraction filled [] = filled
is_fraction filled (c ∷ s) =
    if c == 101 || c == 69
    then filled && is_digits false (unsigned s)
    else is_digit c && is_fraction true s

unfoldable pub is_unsigned : Bool → Str → Bool
unfolding is_digit
is_unsigned filled [] = filled
is_unsigned filled (c ∷ s) =
    if c == 46
    then not (is_nil s) && is_fraction filled s
    else if c == 101 || c == 69
    then filled && is_digits false (unsigned s)
    else is_digit c && is_unsigned true s

abbrev pub is_numeric : Str → Bool
is_numeric s = is_unsigned false (unsigned s)

abbrev pub is_word : Str → Bool
is_word s = s == codes "UNDEF" || s == codes "true" || s == codes "false" || is_numeric s

abbrev pub read_datatype : Str → Option (Str × Str) → Option (Term × Str)
read_datatype lex none = none
read_datatype lex (some (datatype, rest)) = some (typed lex datatype, rest)

abbrev pub datatype_or : Str → Str → Option (Term × Str)
datatype_or lex s =
    if starts_with s (codes "^^<")
    then read_datatype lex (read_iri (drop 3 s))
    else if starts_with s (codes "^")
    then none
    else some (plain lex, s)

abbrev pub read_suffix : Option (Str × Str) → Option (Term × Str)
read_suffix none = none
read_suffix (some (lex, [])) = some (plain lex, [])
read_suffix (some (lex, c ∷ s)) =
    let tag = read_run tag_char s in
    if c == 64
    then if is_tag false tag.0 then some (tagged lex tag.0, tag.1) else none
    else datatype_or lex (c ∷ s)

abbrev pub as_iri : Option (Str × Str) → Option (Term × Str)
as_iri none = none
as_iri (some (s, rest)) = some (iri_term s, rest)

abbrev pub as_word : Str × Str → Option (Term × Str)
as_word (s, rest) = if is_word s then some (word s, rest) else none

unfoldable pub read_term : Str → Option (Term × Str)
read_term [] = none
read_term (c ∷ s) =
    if c == 60
    then as_iri (read_iri s)
    else if c == 34
    then if starts_with s (codes "\"\"") then none else read_suffix (read_string false s)
    else as_word (read_run word_char (c ∷ s))
