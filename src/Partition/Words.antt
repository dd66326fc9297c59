-- ===== src/Partition/Words.antt =====
-- The characters of the tags and numbers that Partition.Reader reads, for arango_sparql/partition.py.
use arango_sparql_py.Base.{◌≡◌, Bool, true, false, [], ◌∷◌, refl, arith}
use arango_sparql_py.Base.Eq.{nat_eq, list_eq}
use arango_sparql_py.Base.Lists.{all}
use arango_sparql_py.Base.Str.{Str, is_letter}
use arango_sparql_py.Partition.Reader.{
  tag_char, is_subtags, is_tag, word_char, is_digits, unsigned, is_fraction, is_unsigned,
  is_numeric,
}

is_subtags-chars : (filled : Bool) (s : Str) → is_subtags filled s ≡ true → all tag_char s ≡ true
unfolding is_subtags tag_char
is_subtags-chars filled [] h = refl
is_subtags-chars filled (c ∷ s) h =
    ground (arith, is_subtags-chars false s, is_subtags-chars true s)

pub is_tag-chars : (filled : Bool) (s : Str) → is_tag filled s ≡ true → all tag_char s ≡ true
unfolding is_tag tag_char
is_tag-chars filled [] h = refl
is_tag-chars filled (c ∷ s) h = ground (arith, is_subtags-chars false s, is_tag-chars true s)

is_digits-chars : (filled : Bool) (s : Str) → is_digits filled s ≡ true → all word_char s ≡ true
unfolding is_digits word_char
is_digits-chars filled [] h = refl
is_digits-chars filled (c ∷ s) h = ground (arith, is_digits-chars true s)

unsigned-chars : (s : Str) → all word_char (unsigned s) ≡ true → all word_char s ≡ true
unfolding word_char
unsigned-chars [] h = refl
unsigned-chars (c ∷ s) h = ground (arith, h)

is_fraction-chars : (filled : Bool) (s : Str) → is_fraction filled s ≡ true → all word_char s ≡ true
unfolding is_fraction word_char is_letter
is_fraction-chars filled [] h = refl
is_fraction-chars filled (c ∷ s) h =
    ground
      (arith, h, is_digits-chars false (unsigned s), unsigned-chars s, is_fraction-chars true s)

is_unsigned-chars : (filled : Bool) (s : Str) → is_unsigned filled s ≡ true → all word_char s ≡ true
unfolding is_unsigned word_char is_letter
is_unsigned-chars filled [] h = refl
is_unsigned-chars filled (c ∷ s) h = ground (
  arith,
  h,
  is_digits-chars false (unsigned s),
  unsigned-chars s,
  is_fraction-chars filled s,
  is_unsigned-chars true s,
)

pub is_numeric-chars : (s : Str) → is_numeric s ≡ true → all word_char s ≡ true
is_numeric-chars s h = unsigned-chars s (is_unsigned-chars false (unsigned s) h)
