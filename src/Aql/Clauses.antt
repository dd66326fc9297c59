-- ===== src/Aql/Clauses.antt =====
-- The body clauses of `AqlQueryBuilder` other than its loops: FILTER, LET, COLLECT, SORT and LIMIT
-- (arango_sparql/translate/builder.py).
use arango_sparql_py.Base.{
  ℕ, zero, suc, Bool, true, not, ◌&&◌, Option, none, some, List, [], ◌∷◌, ◌++◌, map,
}
use arango_sparql_py.Base.Tests.{if◌then◌else◌, is_some}
use arango_sparql_py.Base.Lists.{is_nil, any, all, join}
use arango_sparql_py.Base.Numbers.{ℤ, pos, negsuc}
use arango_sparql_py.Base.Str.{Str, codes, show, starts_with}
use arango_sparql_py.Errors.{Result, ok, err, value_error, aql_emit_error}
use arango_sparql_py.Aql.Names.{matches_ident, is_aql_identifier, attribute_ref}
use arango_sparql_py.Aql.State.{
  str, ClauseKind, filter_kind, let_kind, sort_kind, limit_kind, collect_kind, is_collect, Emit,
  pure, raise, lift, gets, modify, require, add_clause, ◌>>=◌, ◌>>◌,
}
use arango_sparql_py.Aql.Mint.{bind}

unfoldable pub filter_eq : Str → Str → Emit (Unit {0})
unfolding ◌>>=◌ require add_clause
filter_eq lhs rhs = do
  require (starts_with rhs (codes "@")) aql_emit_error
  add_clause filter_kind (codes "FILTER " ++ lhs ++ codes " == " ++ rhs)

unfoldable pub filter_raw : Str → Emit (Unit {0})
unfolding add_clause
filter_raw expression = add_clause filter_kind (codes "FILTER " ++ expression)

abbrev let_text : Str → Str → Str
let_text alias expression = codes "LET " ++ alias ++ codes " = " ++ expression

-- `let`
unfoldable pub let_clause : Str → Str → Emit (Unit {0})
unfolding ◌>>=◌ require add_clause
let_clause alias expression = do
  require (matches_ident alias) value_error
  add_clause let_kind (let_text alias expression)

unfoldable pub insert_first : ClauseKind → Str → Emit (Unit {0})
insert_first kind text =
    modify (λ b. record b { body_clauses = record { kind = kind; text = text } ∷ b.body_clauses })

unfoldable pub let_first : Str → Str → Emit (Unit {0})
unfolding ◌>>=◌ require insert_first
let_first alias expression = do
  require (matches_ident alias) value_error
  insert_first let_kind (let_text alias expression)

unfoldable pub sort_here : Str → Bool → Emit (Unit {0})
unfolding add_clause
sort_here expression descending =
    add_clause sort_kind (codes "SORT " ++ expression ++ (if descending then codes " DESC" else []))

abbrev pub is_value_placeholder : Str → Bool
is_value_placeholder p = starts_with p (codes "@") && not (starts_with p (codes "@@"))

unfoldable pub limit_here : Str → Emit (Unit {0})
unfolding ◌>>=◌ require add_clause
limit_here count_bind = do
  require (is_value_placeholder count_bind) value_error
  add_clause limit_kind (codes "LIMIT " ++ count_bind)

abbrev pairs_text : List (Str × Str) → Str
pairs_text pairs = join (codes ", ") (map (λ (p : Str × Str). p.0 ++ codes " = " ++ p.1) pairs)

abbrev count_ok : Option Str → Bool
count_ok none = true
count_ok (some alias) = matches_ident alias

abbrev into_part : Option Str → List (Str × Str) → List Str
into_part (some alias) aggregates = (codes "WITH COUNT INTO " ++ alias) ∷ []
into_part none [] = []
into_part none (a ∷ as') = (codes "AGGREGATE " ++ pairs_text (a ∷ as')) ∷ []

unfoldable pub collect_text : List (Str × Str) → List (Str × Str) → Option Str → Str
collect_text keys aggregates count_into = join (codes " ") (
    codes "COLLECT"
    ∷ ((if is_nil keys then [] else pairs_text keys ∷ []) ++ into_part count_into aggregates))

unfoldable pub collect : List (Str × Str) → List (Str × Str) → Option Str → Emit (Unit {0})
unfolding ◌>>=◌ require add_clause
collect keys aggregates count_into = do
  emitted ← gets (λ b. any (λ c. is_collect c.kind) b.body_clauses)
  require (not emitted) aql_emit_error
  require (not (is_some count_into && not (is_nil aggregates))) aql_emit_error
  require (all (λ (k : Str × Str). matches_ident k.0) keys) value_error
  require (all (λ (a : Str × Str). matches_ident a.0) aggregates) value_error
  require (count_ok count_into) value_error
  add_clause collect_kind (collect_text keys aggregates count_into)

-- the loop over the enclosing levels: the reference reached, and the tests collected
unfoldable pub parent_tests : Str → List Str → List Str → Result (Str × List Str)
parent_tests parent tests [] = ok (parent, tests)
parent_tests parent tests (segment ∷ rest) = elim (attribute_ref parent segment) [
  | err e ↦ err e
  | ok ref ↦ parent_tests ref (tests ++ (codes "IS_OBJECT(" ++ ref ++ codes ")") ∷ []) rest
]

-- `*parents, last = path`
unfoldable pub split_last : Str → List Str → List Str × Str
split_last first [] = ([], first)
split_last first (next ∷ rest) =
    let (parents, last) = split_last next rest in (first ∷ parents, last)

unfoldable pub name_or_bind : Str → Emit Str
unfolding pure bind
name_or_bind last =
    if is_aql_identifier last
    then pure (b'"' ∷ (last ++ b'"' ∷ []))
    else bind (str last) (some (codes "attr"))

unfoldable pub attribute_exists : Str → List Str → Emit Str
unfolding raise ◌>>=◌ lift split_last parent_tests name_or_bind
attribute_exists alias [] = raise value_error
attribute_exists alias (first ∷ path) =
    let (parents, last) = split_last first path in
    do
      (parent, tests) ← lift (parent_tests alias [] parents)
      name ← name_or_bind last
      pure (
          join (codes " && ")
            (tests ++ (codes "HAS(" ++ parent ++ codes ", " ++ name ++ codes ")") ∷ []))

unfoldable pub sort : Str → Bool → Emit (Unit {0})
sort expression descending =
    let key = expression ++ codes " " ++ (if descending then codes "DESC" else codes "ASC") in
    modify (λ b. record b { sort_keys = b.sort_keys ++ key ∷ [] })

abbrev limit_text : ℕ → ℕ → Str
limit_text count zero = codes "LIMIT " ++ show count
limit_text count (suc n) = codes "LIMIT " ++ show (suc n) ++ codes ", " ++ show count

unfoldable pub limit : ℤ → ℤ → Emit (Unit {0})
unfolding raise ◌>>=◌ require modify
limit (negsuc c) offset = raise value_error
limit (pos c) (negsuc o) = raise value_error
limit (pos c) (pos o) = do
  present ← gets (λ b. is_some b.limit_clause)
  require (not present) aql_emit_error
  modify
      (λ b. record b { limit_clause = some (record { kind = limit_kind; text = limit_text c o }) })
