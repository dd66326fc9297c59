-- ===== src/Service/Updates.antt =====
-- arango_sparql/service/protocol/update_detect.py: which request bodies are SPARQL Updates.

pub mod Words
pub mod Keywords
pub mod Comments
mod Tests
use arango_sparql_py.Base.{
  ℕ, zero, suc, ◌+◌, ◌≡◌, Bool, true, false, not, ◌||◌, ◌&&◌, Option, none, some, List, [], ◌∷◌,
  ◌++◌, refl, map,
}
use arango_sparql_py.Base.Tests.{if◌then◌else◌, ltb}
use arango_sparql_py.Base.Eq.{◌==◌, nat_eq, list_eq}
use arango_sparql_py.Base.Lists.{length, take, drop, any, contains, is_nil}
use arango_sparql_py.Base.Str.{
  Str, codes, is_letter, is_digit, is_ident_char, is_space, lstrip, lower_char, upper_char,
}

abbrev pub update_keywords : List Str
update_keywords =
    map codes
      ("INSERT" ∷ "DELETE" ∷ "LOAD" ∷ "CLEAR" ∷ "CREATE" ∷ "DROP" ∷ "COPY" ∷ "MOVE" ∷ "ADD" ∷ [])

abbrev pub one_more : Option ℕ → Option ℕ
one_more none = none
one_more (some n) = some (suc n)

-- The length of the rest of `<[^>]*>` after its first character.
unfoldable pub iri_length : Str → Option ℕ
iri_length [] = none
iri_length (c ∷ s) = let rest = one_more (iri_length s) in if c == 62 then some 1 else rest

-- The same of a literal in quotes: a backslash takes any character but a newline with it.
unfoldable pub literal_length : ℕ → Bool → Str → Option ℕ
literal_length quote escaped [] = none
literal_length quote escaped (c ∷ s) =
    let rest = one_more (literal_length quote (c == 92 && not escaped) s) in
    if escaped then (if c == 10 then none else rest) else if c == quote then some 1 else rest

-- What `_COMMENT_OR_LITERAL_RE` finds at a character: a slot with so many characters after this one,
-- a comment, or nothing.
pub data Slot : Type 0 where
  kept : ℕ → Slot
  comment nothing : Slot

abbrev pub slot_of : Option ℕ → Slot
slot_of none = nothing
slot_of (some n) = kept n

unfoldable pub slot_at : ℕ → Str → Slot
slot_at c s =
    if c == 60
    then slot_of (iri_length s)
    else if c == 34 || c == 39
    then slot_of (literal_length c false s)
    else if c == 35
    then comment
    else nothing

-- where the substitution stands: at a new match, inside a kept slot, or inside a comment
pub data Inside : Type 0 where
  text : Inside
  slot : ℕ → Inside
  erased : Inside

abbrev pub enter : Slot → Inside
enter (kept n) = slot n
enter comment = erased
enter nothing = text

abbrev pub drops : Slot → Bool
drops comment = true
drops _ = false

-- whether the next character is dropped, and where the substitution stands after it
unfoldable pub advance : Inside → ℕ → Str → Bool × Inside
advance text c s = (drops (slot_at c s), enter (slot_at c s))
advance (slot zero) c s = (drops (slot_at c s), enter (slot_at c s))
advance (slot (suc n)) c s = (false, slot n)
advance erased c s = if c == 10 then (false, text) else (true, erased)

unfoldable pub swap_from : Inside → Str → Str
swap_from i [] = []
swap_from i (c ∷ s) =
    let rest = swap_from (advance i c s).1 s in if (advance i c s).0 then rest else c ∷ rest

unfoldable pub strip_comments : Str → Str
strip_comments s = swap_from text s

-- The letters that one of the pattern's ASCII letters matches under `IGNORECASE` include four others.
abbrev pub fold : ℕ → ℕ
fold c =
    if c == 0x130 || c == 0x131
    then 105
    else if c == 0x17f
    then 115
    else if c == 0x212a
    then 107
    else lower_char c

-- the rest after a word, its case ignored
unfoldable pub match_word : Str → Str → Option Str
match_word [] s = some s
match_word (k ∷ ks) [] = none
match_word (k ∷ ks) (c ∷ s) = if fold c == lower_char k then match_word ks s else none

abbrev pub after_spaces : Option Str → Option Str
after_spaces none = none
after_spaces (some []) = none
after_spaces (some (c ∷ s)) = if is_space c then some (lstrip s) else none

-- the rest after `<[^>]*>`
abbrev pub after_iri : Option Str → Option Str
after_iri none = none
after_iri (some []) = none
after_iri (some (c ∷ s)) =
    if c == 60 then elim (iri_length s) [ none ↦ none | some n ↦ some (drop n s) ] else none

abbrev pub is_prefix_start : ℕ → Bool
is_prefix_start c = is_letter (fold c) || c == 95

abbrev pub is_prefix_char : ℕ → Bool
is_prefix_char c = is_ident_char (fold c) || c == 46 || c == 45

unfoldable pub skip_prefix : Str → Str
skip_prefix [] = []
skip_prefix (c ∷ s) = let rest = skip_prefix s in if is_prefix_char c then rest else c ∷ s

-- the rest after `[A-Za-z_][A-Za-z0-9_.-]*\s*:\s*`
abbrev pub after_colon : Str → Option Str
after_colon [] = none
after_colon (c ∷ s) = if c == 58 then some (lstrip s) else none

abbrev pub after_prefix : Option Str → Option Str
after_prefix none = none
after_prefix (some []) = none
after_prefix (some (c ∷ s)) =
    if is_prefix_start c then after_colon (lstrip (skip_prefix s)) else none

abbrev pub first_of : Option Str → Option Str → Option Str
first_of (some s) o = some s
first_of none o = o

-- the rest after a match of `_PROLOGUE_RE`
unfoldable pub match_prologue : Str → Option Str
match_prologue s =
    first_of (after_iri (after_spaces (match_word (codes "BASE") (lstrip s))))
      (after_iri (after_prefix (after_spaces (match_word (codes "PREFIX") (lstrip s)))))

unfoldable pub strip_prologue : ℕ → Str → Str
strip_prologue zero s = s
strip_prologue (suc n) s = elim (match_prologue s) [ none ↦ s | some rest ↦ strip_prologue n rest ]

-- `max(1, n)`
abbrev pub at_least_one : ℕ → ℕ
at_least_one zero = 1
at_least_one (suc n) = suc n

unfoldable pub strip_prologue_and_comments : Str → Str
strip_prologue_and_comments query =
    let cleaned = strip_comments query in
    lstrip (strip_prologue (at_least_one (length cleaned)) cleaned)

-- `body.split(None, 1)[0]` of a text that starts with no space
unfoldable pub first_token : Str → Str
first_token [] = []
first_token (c ∷ s) = let rest = first_token s in if is_space c then [] else c ∷ rest

-- `str.upper`, as far as it gives one of the keywords' letters
abbrev pub upper : ℕ → ℕ
upper c = if c == 0x131 then 73 else if c == 0x17f then 83 else upper_char c

-- Which characters above ASCII a pattern takes for a word's is Unicode data.
module _ (word_high : ℕ → Bool) where
  abbrev pub is_word : ℕ → Bool
  is_word c = if ltb c 128 then is_ident_char c else word_high c

  abbrev pub ends_word : Option Str → Bool
  ends_word none = false
  ends_word (some []) = true
  ends_word (some (c ∷ s)) = not (is_word c)

  -- `_UPDATE_KEYWORD_RE.search`, after a character that is a word's or not
  unfoldable pub finds_keyword : Bool → Str → Bool
  finds_keyword in_word [] = false
  finds_keyword in_word (c ∷ s) =
      let here = not in_word && any (λ k. ends_word (match_word k (c ∷ s))) update_keywords in
      here || finds_keyword (is_word c) s

  -- `is_sparql_update` of a text
  unfoldable pub is_sparql_update : Str → Bool
  is_sparql_update query =
      let body = strip_prologue_and_comments query in
      let leading = map upper (first_token body) in
      if is_nil body
      then false
      else if leading == codes "WITH"
      then finds_keyword false (take 256 (drop 4 body))
      else contains leading update_keywords
