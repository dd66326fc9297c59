-- ===== src/Partition/Terms.antt =====
-- A seed cell that arango_sparql/partition.py writes is read back as that cell's term.
use arango_sparql_py.Base.{
  ℕ, ◌≡◌, Bool, true, false, not, ◌||◌, ◌&&◌, Option, none, some, [], ◌∷◌, ◌++◌, refl, sym, ap, ◌∙◌,
  subst, arith, inl, inr, append_assoc, append-nil,
}
use arango_sparql_py.Base.Tests.{if◌then◌else◌, Bool-cases, and-eq-true}
use arango_sparql_py.Base.Eq.{◌==◌, nat_eq, list_eq}
use arango_sparql_py.Base.Lists.{any, all}
use arango_sparql_py.Base.Str.{Str, codes, starts_with, is_letter, is_digit}
use arango_sparql_py.Errors.{Result, ok_of_bind, ok_same}
use Result.{ok}
use arango_sparql_py.Partition.{
  SeedValue, escaped, escape_literal, is_unsafe, iri, truthy, truthy_or, literal_to_sparql, lexical,
  is_kind, binding_to_sparql, term_to_sparql,
}
use arango_sparql_py.Partition.Reader.{
  Term, has_code_point, read_suffix, read_term, tag_char, is_tag, word_char, is_numeric, is_word,
  is_unsigned,
}
use arango_sparql_py.Partition.Words.{is_tag-chars, is_numeric-chars}
use arango_sparql_py.Partition.Quoting.{
  starts_with-escaped, read_string-escaped, is_printable, is_safe, read_iri-safe,
  has_code_point-safe, has_code_point-escaped, has_code_point-clean, read_run-clean,
}
use SeedValue.{unbound, uri_ref, literal, binding, boolean, number, text, other}
use Term.{iri_term, plain, tagged, typed, word}

abbrev pub literal_term : Str → Option Str → Option Str → Term
literal_term lex (some datatype) lang = typed lex datatype
literal_term lex none (some lang) = tagged lex lang
literal_term lex none none = plain lex

-- the term that a cell stands for
abbrev pub denoted : SeedValue → Term
denoted unbound = word (codes "UNDEF")
denoted (uri_ref s) = iri_term s
denoted (literal lex datatype lang) = literal_term lex datatype (truthy lang)
denoted (binding kind lex datatype xml_lang lang) =
    if is_kind "uri" kind
    then iri_term (lexical lex)
    else literal_term (lexical lex) (truthy datatype) (truthy (truthy_or (truthy xml_lang) lang))
denoted (boolean true) = word (codes "true")
denoted (boolean false) = word (codes "false")
denoted (number s) = word s
denoted (text s) = plain s
denoted other = word []

-- a space or a closing parenthesis, which stand after the cells of a row
abbrev pub is_end : ℕ → Bool
is_end c = c == 32 || c == 41

-- A literal's text holds no backslash before a u, its datatype no control character, and its language,
-- where it has no datatype, is a language tag.
abbrev pub clean_literal : Str → Option Str → Option Str → Bool
clean_literal lex none none = not (has_code_point lex)
clean_literal lex none (some lang) = not (has_code_point lex) && is_tag false lang
clean_literal lex (some datatype) lang = not (has_code_point lex) && all is_printable datatype

-- A cell is such a literal, an IRI without control characters, or a number that SPARQL has, or none of
-- these.
abbrev pub clean : SeedValue → Bool
clean (uri_ref s) = all is_printable s
clean (literal lex datatype lang) = clean_literal lex datatype (truthy lang)
clean (binding kind lex datatype xml_lang lang) =
    if is_kind "uri" kind
    then all is_printable (lexical lex)
    else clean_literal (lexical lex) (truthy datatype) (truthy (truthy_or (truthy xml_lang) lang))
clean (number s) = is_numeric s
clean (text s) = not (has_code_point s)
clean _ = true

-- A text without code-point escapes that is read as a term, and nothing of what follows it.
abbrev pub Reads : Str → Term → Str → Type 0
Reads t v rest = (has_code_point t ≡ false) × (read_term (t ++ rest) ≡ some (v, rest))

read_quoted :
    (lex u : Str)
    → starts_with u (codes "\"") ≡ false
    → read_term (escape_literal lex ++ u) ≡ read_suffix (some (lex, u))
unfolding read_term escape_literal
read_quoted lex u h =
    rw
      (
        append_assoc (escaped lex) (34 ∷ []) u,
        starts_with-escaped lex u h,
        read_string-escaped lex u,
      )
      refl

quoted-has_code_point :
    (lex u : Str)
    → has_code_point lex ≡ false
    → has_code_point u ≡ false
    → has_code_point (escape_literal lex ++ u) ≡ false
unfolding escape_literal has_code_point
quoted-has_code_point lex u h k =
    rw (append_assoc (escaped lex) (34 ∷ []) u) (has_code_point-escaped lex u h k)

iri-ok :
    (s t : Str)
    → iri s ≡ ok t
    → all is_printable s ≡ true
    → (is_safe s ≡ true) × (60 ∷ s ++ 62 ∷ [] ≡ t)
unfolding iri
iri-ok s t e h = elim (Bool-cases (any is_unsafe s)) [
  | inl unsafe ↦ absurd (cc (rw unsafe at e))
  | inr safe ↦ (ground (arith, safe, h), cc (rw safe at e))
]

iri-has_code_point :
    (s u : Str)
    → is_safe s ≡ true
    → has_code_point (62 ∷ u) ≡ false
    → has_code_point (60 ∷ s ++ 62 ∷ u) ≡ false
unfolding has_code_point
iri-has_code_point s u h k = has_code_point-safe s (62 ∷ u) h k

iri-Reads : (s t u : Str) → iri s ≡ ok t → all is_printable s ≡ true → Reads t (iri_term s) u
unfolding read_term has_code_point
iri-Reads s t u e h =
    let (safe, same) = iri-ok s t e h in
    rw (sym same) (
      iri-has_code_point s [] safe refl,
      rw (append_assoc s (62 ∷ []) u, read_iri-safe s u safe) refl,
    )

tag_end : (c : ℕ) → is_end c ≡ true → tag_char c ≡ false
unfolding tag_char is_letter is_digit
tag_end c h = ground (arith, h)

word_end : (c : ℕ) → is_end c ≡ true → word_char c ≡ false
unfolding word_char is_letter is_digit
word_end c h = ground (arith, h)

word_start : (c : ℕ) → word_char c ≡ true → ((c == 60) ≡ false) × ((c == 34) ≡ false)
unfolding word_char is_letter is_digit
word_start c h = ground (arith, h)

word_start_backslash : word_char 92 ≡ false
unfolding word_char is_letter is_digit
word_start_backslash = refl

tag-has_code_point : (lang : Str) → is_tag false lang ≡ true → has_code_point (64 ∷ lang) ≡ false
unfolding has_code_point tag_char is_letter is_digit
tag-has_code_point lang h = has_code_point-clean tag_char lang refl (is_tag-chars false lang h)

module _ (c : ℕ) (rest : Str) (end : is_end c ≡ true) where
  no_suffix : (lex : Str) → read_suffix (some (lex, c ∷ rest)) ≡ some (plain lex, c ∷ rest)
  no_suffix lex = ground arith

  no_quote : starts_with (c ∷ rest) (codes "\"") ≡ false
  no_quote = ground arith

  suffix-Reads :
      (lex u : Str) (v : Term)
      → has_code_point lex ≡ false
      → has_code_point u ≡ false
      → starts_with (u ++ c ∷ rest) (codes "\"") ≡ false
      → read_suffix (some (lex, u ++ c ∷ rest)) ≡ some (v, c ∷ rest)
      → Reads (escape_literal lex ++ u) v (c ∷ rest)
  suffix-Reads lex u v h k no_quote e = (
    quoted-has_code_point lex u h k,
    rw (append_assoc (escape_literal lex) u (c ∷ rest), read_quoted lex (u ++ c ∷ rest) no_quote) e,
  )

  datatype-Reads :
      (lex datatype : Str)
      → has_code_point lex ≡ false
      → is_safe datatype ≡ true
      → Reads
          (escape_literal lex ++ (codes "^^<" ++ (datatype ++ 62 ∷ [])))
          (typed lex datatype)
          (c ∷ rest)
  unfolding has_code_point
  datatype-Reads lex datatype h safe =
      suffix-Reads lex (codes "^^<" ++ (datatype ++ 62 ∷ [])) (typed lex datatype) h
        (iri-has_code_point datatype [] safe refl) refl
        (rw (append_assoc datatype (62 ∷ []) (c ∷ rest), read_iri-safe datatype (c ∷ rest) safe)
          refl)

  tag-Reads :
      (lex lang : Str)
      → has_code_point lex ≡ false
      → is_tag false lang ≡ true
      → Reads (escape_literal lex ++ 64 ∷ lang) (tagged lex lang) (c ∷ rest)
  tag-Reads lex lang h tag =
      suffix-Reads lex (64 ∷ lang) (tagged lex lang) h (tag-has_code_point lang tag) refl (
        rw (read_run-clean tag_char lang c rest (is_tag-chars false lang tag) (tag_end c end))
          (rw tag refl))

  plain-Reads :
      (lex : Str) → has_code_point lex ≡ false → Reads (escape_literal lex) (plain lex) (c ∷ rest)
  unfolding has_code_point
  plain-Reads lex h =
      subst (λ t. Reads t (plain lex) (c ∷ rest)) (append-nil (escape_literal lex))
        (suffix-Reads lex [] (plain lex) h refl no_quote (no_suffix lex))

  literal-Reads :
      (lex : Str) (datatype lang : Option Str) (t : Str)
      → literal_to_sparql lex datatype lang ≡ ok t
      → clean_literal lex datatype lang ≡ true
      → Reads t (literal_term lex datatype lang) (c ∷ rest)
  unfolding literal_to_sparql
  literal-Reads lex (some datatype) lang t e h =
      let (w, first, second) =
        ok_of_bind (iri datatype) (λ w. ok (escape_literal lex ++ codes "^^" ++ w)) t e in
      let (safe, same) = iri-ok datatype w first (ground (arith, h)) in
      subst (λ t. Reads t (typed lex datatype) (c ∷ rest))
        (sym (append_assoc (escape_literal lex) (codes "^^") (60 ∷ datatype ++ 62 ∷ []))
          ∙ ap (λ w. escape_literal lex ++ codes "^^" ++ w) same
          ∙ ok_same (escape_literal lex ++ codes "^^" ++ w) t second)
        (datatype-Reads lex datatype (ground (arith, h)) safe)
  literal-Reads lex none (some lang) t e h =
      subst (λ t. Reads t (tagged lex lang) (c ∷ rest))
        (ok_same (escape_literal lex ++ 64 ∷ lang) t e)
        (tag-Reads lex lang (ground (arith, h)) (ground (arith, h)))
  literal-Reads lex none none t e h =
      subst (λ t. Reads t (plain lex) (c ∷ rest)) (ok_same (escape_literal lex) t e)
        (plain-Reads lex (ground (arith, h)))

  word-Reads : (s : Str) → all word_char s ≡ true → is_word s ≡ true → Reads s (word s) (c ∷ rest)
  unfolding read_term is_unsigned
  word-Reads [] h k = absurd (cc k)
  word-Reads (d ∷ s) h k =
      let (no_iri, no_string) = word_start d (and-eq-true (word_char d) (all word_char s) h).0 in
      (
        has_code_point-clean word_char (d ∷ s) word_start_backslash h,
        rw (no_iri, no_string, read_run-clean word_char (d ∷ s) c rest h (word_end c end))
            (rw k refl),
      )

  -- A seed cell that is written, with a space or a closing parenthesis after it and whatever follows,
  -- holds no code-point escape and is read as exactly the term that the cell stands for, if no backslash
  -- stands before a u in its text, its language is a language tag, there is no control character in its
  -- IRI or its datatype, and the text of its number is a number of SPARQL.
  pub term_to_sparql-Reads :
      (v : SeedValue) (t : Str)
      → term_to_sparql v ≡ ok t
      → clean v ≡ true
      → (has_code_point t ≡ false) × (read_term (t ++ c ∷ rest) ≡ some (denoted v, c ∷ rest))
  unfolding term_to_sparql binding_to_sparql literal_to_sparql word_char is_letter is_digit
  term_to_sparql-Reads unbound t e h =
      subst (λ t. Reads t (word (codes "UNDEF")) (c ∷ rest)) (ok_same (codes "UNDEF") t e)
        (word-Reads (codes "UNDEF") refl refl)
  term_to_sparql-Reads (uri_ref s) t e h = iri-Reads s t (c ∷ rest) e h
  term_to_sparql-Reads (literal lex datatype lang) t e h =
      literal-Reads lex datatype (truthy lang) t e h
  term_to_sparql-Reads (binding kind lex datatype xml_lang lang) t e h =
      elim (Bool-cases (is_kind "uri" kind)) [
        | inl uri ↦ rw uri (iri-Reads (lexical lex) t (c ∷ rest) (rw uri at e) (rw uri at h))
        | inr not_uri ↦ elim (Bool-cases (is_kind "literal" kind || is_kind "typed-literal" kind)) [
          | inl lit ↦ rw not_uri (
              literal-Reads (lexical lex) (truthy datatype)
                (truthy (truthy_or (truthy xml_lang) lang)) t (rw lit at (rw not_uri at e))
                (rw not_uri at h))
          | inr neither ↦ absurd (cc (rw neither at (rw not_uri at e)))
        ]
      ]
  term_to_sparql-Reads (boolean true) t e h =
      subst (λ t. Reads t (word (codes "true")) (c ∷ rest)) (ok_same (codes "true") t e)
        (word-Reads (codes "true") refl refl)
  term_to_sparql-Reads (boolean false) t e h =
      subst (λ t. Reads t (word (codes "false")) (c ∷ rest)) (ok_same (codes "false") t e)
        (word-Reads (codes "false") refl refl)
  term_to_sparql-Reads (number s) t e h =
      subst (λ t. Reads t (word s) (c ∷ rest)) (ok_same s t e)
        (word-Reads s (is_numeric-chars s h) (ground (arith, h)))
  term_to_sparql-Reads (text s) t e h =
      subst (λ t. Reads t (plain s) (c ∷ rest)) (ok_same (escape_literal s) t e)
        (plain-Reads s (ground (arith, h)))
  term_to_sparql-Reads other t e h = absurd (cc e)
