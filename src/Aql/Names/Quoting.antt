-- ===== src/Aql/Names/Quoting.antt =====
-- How a reader of AQL names reads back what `attribute_ref` and `object_key` of translate/builder.py write.
use arango_sparql_py.Base.{
  ℕ, Bool, true, false, not, ◌&&◌, Option, none, some, [], ◌∷◌, ◌++◌, map, refl, ◌≡◌, arith, inl,
  inr, append_assoc, ◌⊎◌,
}
use arango_sparql_py.Base.Tests.{if◌then◌else◌, Bool-cases, and-eq-true, is_some}
use arango_sparql_py.Base.Eq.{◌==◌, nat_eq, list_eq}
use arango_sparql_py.Base.Lists.{contains, all}
use arango_sparql_py.Base.Str.{Str, is_letter, is_ident_char, lower_char, chars}
use arango_sparql_py.Errors.{ok, err, aql_emit_error}
use arango_sparql_py.Aql.Names.{
  ident_tail, matches_bare_attribute, aql_reserved_names, is_aql_identifier, can_backtick_quote,
  object_key,
}

-- The reader, an independent description of a name: the longest run of identifier characters, or all up to the closing backtick. Inside
-- backticks a backslash would start an escape, which is not read here.
pub read_word : Str → Str × Str
read_word [] = ([], [])
read_word (c ∷ s) =
    let (w, rest) = read_word s in if is_ident_char c then (c ∷ w, rest) else ([], c ∷ s)

pub read_quoted : Str → Option (Str × Str)
read_quoted [] = none
read_quoted (c ∷ s) =
    let more = read_quoted s in
    if c == 96
    then some ([], s)
    else if c == 92
    then none
    else elim more [ none ↦ none | some (w, rest) ↦ some (c ∷ w, rest) ]

-- A word is a name if a letter follows its underscores and it is no keyword.
pub has_letter_first : Str → Bool
has_letter_first [] = false
has_letter_first (c ∷ s) = let rest = has_letter_first s in if c == 95 then rest else is_letter c

abbrev word_name : Str × Str → Option (Str × Str)
word_name (w, rest) =
    if has_letter_first w && not (contains (map lower_char w) aql_reserved_names)
    then some (w, rest)
    else none

pub read_name : Str → Option (Str × Str)
unfolding read_word read_quoted has_letter_first
read_name [] = none
read_name (c ∷ s) = if c == 96 then read_quoted s else word_name (read_word (c ∷ s))

abbrev pub starts_ident : Str → Bool
starts_ident [] = false
starts_ident (c ∷ s) = is_ident_char c

read_word-ident_tail :
    (s rest : Str)
    → ident_tail s ≡ true
    → contains 10 s ≡ false
    → starts_ident rest ≡ false
    → read_word (s ++ rest) ≡ (s, rest)
unfolding read_word ident_tail
read_word-ident_tail [] [] h n k = refl
read_word-ident_tail [] (c ∷ s) h n k = rw k
read_word-ident_tail (c ∷ s) rest h n k = ground (arith, read_word-ident_tail s rest)

-- what the pattern for bare attributes asks of the word that is read
bare_tail :
    (s : Str)
    → matches_bare_attribute s ≡ true
    → contains 10 s ≡ false
    → (ident_tail s ≡ true) × (has_letter_first s ≡ true)
unfolding matches_bare_attribute has_letter_first ident_tail is_ident_char is_letter
bare_tail [] h n = cc
bare_tail (c ∷ s) h n = ground (arith, bare_tail s)

bare_no_quote : (c : ℕ) (s : Str) → matches_bare_attribute (c ∷ s) ≡ true → (c == 96) ≡ false
unfolding matches_bare_attribute is_letter
bare_no_quote c s h = ground arith

read_name-bare :
    (s rest : Str)
    → is_aql_identifier s ≡ true
    → contains 10 s ≡ false
    → starts_ident rest ≡ false
    → read_name (s ++ rest) ≡ some (s, rest)
unfolding is_aql_identifier
read_name-bare [] rest h n k = cc
read_name-bare (c ∷ s) rest h n k =
    let (bare, free) = and-eq-true _ _ h in
    let (tail, letter) = bare_tail (c ∷ s) bare n in
    unfold read_name in
    rw (bare_no_quote c s bare)
      (rw (read_word-ident_tail (c ∷ s) rest tail n k) (rw (letter, free)))

read_quoted-quote :
    (s rest : Str)
    → contains 96 s ≡ false
    → contains 92 s ≡ false
    → read_quoted (s ++ 96 ∷ rest) ≡ some (s, rest)
unfolding read_quoted
read_quoted-quote [] rest h n = refl
read_quoted-quote (c ∷ s) rest h n = ground (arith, read_quoted-quote s rest)

-- What is written is read back as the name, whatever text follows that is no identifier.
abbrev pub Reads : Str → Str → Type 0
Reads written name =
    (rest : Str) → starts_ident rest ≡ false → read_name (written ++ rest) ≡ some (name, rest)

quoted_Reads : (name : Str) → can_backtick_quote name ≡ true → Reads (96 ∷ (name ++ 96 ∷ [])) name
unfolding can_backtick_quote read_name
quoted_Reads name h rest k =
    rw append_assoc (read_quoted-quote name rest (ground arith) (ground arith))

-- For a name without a newline, the key that `object_key` writes is read by a reader of AQL names as exactly
-- that name, with all of the following text left over; or the name is refused, which happens
-- exactly when it is empty or holds a backtick or a backslash.
pub object_key-Reads :
    (name : Str)
    → contains 10 name ≡ false
    → ((written : Str) × (object_key name ≡ ok written) × Reads written name)
      ⊎ ((object_key name ≡ err aql_emit_error) × (can_backtick_quote name ≡ false))
unfolding object_key
object_key-Reads name n = elim (Bool-cases (is_aql_identifier name)) [
  | inl bare ↦ inl (name, rw bare, λ rest k. read_name-bare name rest bare n k)
  | inr special ↦ elim (Bool-cases (can_backtick_quote name)) [
    | inl quotable ↦
        inl (96 ∷ (name ++ 96 ∷ []), rw special (rw quotable), quoted_Reads name quotable)
    | inr unsafe ↦ inr (rw special (rw unsafe), unsafe)
  ]
]

abbrev bare_and_unread : Str → Bool
bare_and_unread name = is_aql_identifier name && not (is_some (read_name name))

reserved_table : all (λ w. bare_and_unread (w ++ 10 ∷ [])) aql_reserved_names ≡ true
unfolding is_aql_identifier read_name chars
reserved_table = refl
