-- ===== src/Aql/Finalize.antt =====
-- `finalize`, `create_child` and `absorb_child` of `AqlQueryBuilder`
-- (arango_sparql/translate/builder.py).
use arango_sparql_py.Base.{Bool, true, false, Option, none, some, List, [], ◌∷◌, ◌++◌, map}
use arango_sparql_py.Base.Tests.{if◌then◌else◌}
use arango_sparql_py.Base.Eq.{◌==◌, list_eq, nat_eq}
use arango_sparql_py.Base.Lists.{is_nil, join}
use arango_sparql_py.Base.Dict.{Dict, get, put}
use arango_sparql_py.Base.Str.{Str, codes}
use arango_sparql_py.Base.Lines.{indent}
use arango_sparql_py.Errors.{Result, ok, err, aql_emit_error}
use arango_sparql_py.Aql.State.{
  Value, value_eq, Builder, empty_builder, Clause, Emit, pure, raise, gets, modify, require,
  has_for_clause, ◌>>=◌, ◌>>◌,
}
use arango_sparql_py.Aql.Mint.{Unicode, fresh_alias, bind_collection}

abbrev pub lines : List Str → Str
lines = join (10 ∷ [])

abbrev pub clause_texts : List Clause → List Str
clause_texts = map (λ c. c.text)

abbrev pub option_list {ℓ} : {A : Type ℓ} → Option A → List A
option_list none = []
option_list (some a) = a ∷ []

-- the body clauses, then the collected SORT
unfoldable pub ordered_texts : Builder → List Str
ordered_texts b =
    clause_texts b.body_clauses
    ++ (if is_nil b.sort_keys then [] else (codes "SORT " ++ join (codes ", ") b.sort_keys) ∷ [])

abbrev let_block : Str → Str → Str
let_block alias inner =
    codes "LET " ++ alias ++ codes " = (" ++ 10 ∷ (indent inner ++ 10 ∷ b')' ∷ [])

-- the wrapper that substitutes one empty binding for no rows
unfoldable pub fallback_body : List Str → Option Clause → Emit Str
fallback_body inner limit = do
  results ← fresh_alias (codes "results")
  result ← fresh_alias (codes "result")
  pure (
      lines (
        let_block results (lines inner)
        ∷ (codes "FOR "
            ++ result
            ++ codes " IN (LENGTH("
            ++ results
            ++ codes ") == 0 ? [{}] : "
            ++ results
            ++ codes ")")
        ∷ (clause_texts (option_list limit) ++ (codes "RETURN " ++ result) ∷ [])))

-- de-duplication in a subquery, the slice outside it
unfoldable pub dedup_body : List Str → Clause → Emit Str
dedup_body inner limit = do
  rows ← fresh_alias (codes "deduped")
  row ← fresh_alias (codes "row")
  pure (
      lines (
        let_block rows (lines inner)
        ∷ (codes "FOR " ++ row ++ codes " IN " ++ rows)
        ∷ limit.text
        ∷ (codes "RETURN " ++ row)
        ∷ []))

unfoldable pub plain_body : List Str → Option Clause → Clause → Str
plain_body ordered limit ret =
    lines (ordered ++ (clause_texts (option_list limit) ++ ret.text ∷ []))

abbrev pub distinct_body : List Str → Option Clause → Bool → Clause → Emit Str
distinct_body ordered (some limit) true ret = dedup_body (ordered ++ ret.text ∷ []) limit
distinct_body ordered limit _ ret = pure (plain_body ordered limit ret)

abbrev pub body_of : Builder → Clause → Emit Str
body_of b ret =
    if b.empty_result_fallback
    then fallback_body (ordered_texts b ++ ret.text ∷ []) b.limit_clause
    else distinct_body (ordered_texts b) b.limit_clause b.return_distinct ret

-- `[self.bind_collection(name) for name in names]`
unfoldable pub bind_all : ⦃u : Unicode⦄ → List Str → Emit (List Str)
bind_all ⦃u⦄ [] = pure []
bind_all ⦃u⦄ (name ∷ names) = do
  ref ← bind_collection name
  refs ← bind_all names
  pure (ref ∷ refs)

abbrev pub with_prefix : List Str → Str → Str
with_prefix [] body = body
with_prefix (r ∷ refs) body = codes "WITH " ++ join (codes ", ") (r ∷ refs) ++ 10 ∷ body

abbrev pub ask_wrapper : Bool → Str → Str
ask_wrapper false body = body
ask_wrapper true body = codes "RETURN LENGTH(" ++ 10 ∷ (indent body ++ 10 ∷ codes ") > 0")

unfoldable pub assemble : ⦃u : Unicode⦄ → Clause → Emit (Str × Dict Str Value)
assemble ⦃u⦄ ret = do
  has_for ← gets has_for_clause
  require has_for aql_emit_error
  names ← gets (λ b. b.with_collections)
  refs ← bind_all names
  body ← (λ b. body_of b ret b)
  ask ← gets (λ b. b.ask_mode)
  binds ← gets (λ b. b.bind_vars)
  pure (ask_wrapper ask (with_prefix refs body), binds)

abbrev pub finalize_with : ⦃u : Unicode⦄ → Option Clause → Emit (Str × Dict Str Value)
finalize_with ⦃u⦄ none = raise aql_emit_error
finalize_with ⦃u⦄ (some ret) = assemble ret

unfoldable pub finalize : ⦃u : Unicode⦄ → Emit (Str × Dict Str Value)
finalize ⦃u⦄ b = finalize_with b.return_clause b

unfoldable pub create_child : Builder → Builder
create_child b = record empty_builder {
  bind_counter = b.bind_counter;
  alias_counter = b.alias_counter;
  coll_counter = b.coll_counter;
}

-- the merge of a child's bind variables: a different value under one name is an error
abbrev pub merged : Str → Value → Option Value → Dict Str Value → Result (Dict Str Value)
merged name value none binds = ok (put name value binds)
merged name value (some existing) binds = if existing == value then ok binds else err aql_emit_error

unfoldable pub merge_binds : Dict Str Value → Emit (Unit {0})
unfolding get put
merge_binds [] b = (ok tt, b)
merge_binds ((name, value) ∷ rest) b = elim (merged name value (get name b.bind_vars) b.bind_vars) [
  | err e ↦ (err e, b)
  | ok binds ↦ merge_binds rest (record b { bind_vars = binds })
]

unfoldable pub take_counters : Builder → Emit (Unit {0})
unfolding modify
take_counters child = modify (λ b. record b {
  bind_counter = child.bind_counter;
  alias_counter = child.alias_counter;
  coll_counter = child.coll_counter;
})

-- with the child as its own `finalize` left it
abbrev pub absorb_finalized : Result (Str × Dict Str Value) → Builder → Emit Str
absorb_finalized (err e) child = raise e
absorb_finalized (ok (aql, binds)) child = do merge_binds binds; take_counters child; pure aql

unfoldable pub absorb_child : ⦃u : Unicode⦄ → Builder → Emit Str
absorb_child ⦃u⦄ child = let (result, child') = finalize child in absorb_finalized result child'
