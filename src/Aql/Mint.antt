-- ===== src/Aql/Mint.antt =====
-- Aliases and bind variables of `AqlQueryBuilder`: `fresh_alias`, `bind`, `bind_collection` and
-- `collection_bound_to` of arango_sparql/translate/builder.py.
use arango_sparql_py.Base.{
  ℕ, ◌+◌, Bool, false, ◌&&◌, ◌||◌, Option, none, some, [], ◌∷◌, ◌++◌, map, refl, ◌≡◌,
}
use arango_sparql_py.Base.Tests.{if◌then◌else◌, ltb, leb}
use arango_sparql_py.Base.Eq.{nat_eq, list_eq}
use arango_sparql_py.Base.Lists.{is_nil, contains, all, drop}
use arango_sparql_py.Base.Dict.{get, put}
use arango_sparql_py.Base.Str.{Str, codes, is_ident_char, show, starts_with, chars}
use arango_sparql_py.Errors.{Result, ok, err, value_error, aql_emit_error}
use arango_sparql_py.Aql.Names.{matches_ident}
use arango_sparql_py.Aql.State.{
  Value, str, other, Builder, empty_builder, Emit, pure, gets, modify, require, ◌>>=◌, ◌>>◌,
}

-- Which characters above ASCII Python calls printable is data of the Unicode version in use.
pub record Unicode : Type 0 where
  pub is_printable_high : ℕ → Bool

abbrev pub is_printable : ⦃u : Unicode⦄ → ℕ → Bool
is_printable ⦃u⦄ c = if ltb c 128 then leb 32 c && leb c 126 else u.is_printable_high c

-- `len(name.encode("utf-8"))`, for a text without lone surrogates
unfoldable pub utf8_length : Str → ℕ
utf8_length [] = 0
utf8_length (c ∷ s) =
    (if ltb c 128 then 1 else if ltb c 2048 then 2 else if ltb c 65536 then 3 else 4)
    + utf8_length s

abbrev pub max_collection_name_bytes : ℕ
max_collection_name_bytes = 256

unfoldable pub valid_collection_name : ⦃u : Unicode⦄ → Str → Bool
unfolding utf8_length
valid_collection_name ⦃u⦄ name =
    if is_nil name || contains b'/' name || ltb max_collection_name_bytes (utf8_length name)
    then false
    else all is_printable name

unfoldable pub fresh_alias : Str → Emit Str
unfolding ◌>>=◌ require
fresh_alias prefix = do
  require (matches_ident prefix) value_error
  modify (λ b. record b { alias_counter = b.alias_counter + 1 })
  gets (λ b. prefix ++ show b.alias_counter)

-- `f"_{hint}"`, and no suffix for no hint or an empty one
unfoldable pub hint_suffix : Option Str → Result Str
hint_suffix none = ok []
hint_suffix (some []) = ok []
hint_suffix (some (c ∷ s)) = if matches_ident (c ∷ s) then ok (95 ∷ c ∷ s) else err value_error

abbrev pub bind_name : ℕ → Str → Str
bind_name n suffix = codes "_p" ++ show n ++ suffix

unfoldable pub store_bind : Str → Value → Emit Str
unfolding put
store_bind name value b = (ok (b'@' ∷ name), record b { bind_vars = put name value b.bind_vars })

unfoldable pub bind : Value → Option Str → Emit Str
unfolding ◌>>=◌ hint_suffix store_bind
bind value hint = do
  modify (λ b. record b { bind_counter = b.bind_counter + 1 })
  suffix ← (λ b. (hint_suffix hint, b))
  n ← gets (λ b. b.bind_counter)
  store_bind (bind_name n suffix) value

-- `_BIND_NAME_UNSAFE.sub('_', name)`
abbrev pub sanitize : Str → Str
sanitize = map (λ c. if is_ident_char c then c else 95)

abbrev pub coll_name : ℕ → Str → Str
coll_name n collection = b'c' ∷ (show n ++ 95 ∷ sanitize collection)

-- registers a collection that has no bind name yet
unfoldable pub bind_new_collection : Str → Emit Str
unfolding ◌>>=◌ require put
bind_new_collection collection = do
  modify (λ b. record b { coll_counter = b.coll_counter + 1 })
  name ← gets (λ b. coll_name b.coll_counter collection)
  require (matches_ident name) aql_emit_error
  modify (λ b. record b {
    coll_bind_by_name = put collection name b.coll_bind_by_name;
    bind_vars = put (b'@' ∷ name) (str collection) b.bind_vars;
  })
  pure (b'@' ∷ b'@' ∷ name)

abbrev pub cached_or_new : Str → Option Str → Emit Str
cached_or_new collection none = bind_new_collection collection
cached_or_new collection (some name) = pure (b'@' ∷ b'@' ∷ name)

unfoldable pub bind_collection : ⦃u : Unicode⦄ → Str → Emit Str
unfolding ◌>>=◌ require get bind_new_collection
bind_collection ⦃u⦄ collection = do
  require (valid_collection_name collection) aql_emit_error
  cached ← gets (λ b. get collection b.coll_bind_by_name)
  cached_or_new collection cached

abbrev pub as_text : Option Value → Option Str
as_text none = none
as_text (some (str s)) = some s
as_text (some (other n)) = none

-- the bind name of a `@@name` placeholder, its first `@` taken off
unfoldable pub placeholder_name : Str → Option Str
placeholder_name placeholder =
    if starts_with placeholder (codes "@@") then some (drop 1 placeholder) else none

unfoldable pub collection_bound_to : Str → Builder → Option Str
unfolding placeholder_name get
collection_bound_to placeholder b = elim (placeholder_name placeholder) [
  | none ↦ none
  | some name ↦ as_text (get name b.bind_vars)
]

abbrev ascii_only : Unicode
ascii_only = record { is_printable_high = λ c. false }

mint_test :
    let r : Result Str × Builder =
      (do
        _ ← bind_collection ⦃u = ascii_only⦄ (codes "IAM-X")
        bind (other 7) (some (codes "attr")))
        empty_builder in
    (r.0 ≡ ok (codes "@_p1_attr"))
    × (collection_bound_to (codes "@@c1_IAM_X") r.1 ≡ some (codes "IAM-X"))
unfolding bind_collection bind collection_bound_to valid_collection_name matches_ident show chars
mint_test = (refl, refl)
