-- ===== src/Aql/Fresh/Program/Methods.antt =====
-- A predicate on builders that the minting of aliases and bind names keeps is kept by every method
-- of the builder of translate/builder.py, if it depends on the names alone.
use arango_sparql_py.Base.Numbers.{ℤ, pos, negsuc}
use arango_sparql_py.Base.{◌+◌, ◌≡◌, refl, Bool, true, false, List, [], ◌∷◌, Option}
use arango_sparql_py.Base.Str.{Str}
use arango_sparql_py.Aql.State.{Value, Builder, Clause, ClauseKind, modify, add_clause, add_scanned}
use arango_sparql_py.Aql.Mint.{Unicode, fresh_alias, bind, bind_collection}
use arango_sparql_py.Aql.Keeps.{Keeps, Keeps-modify, keeps_rules}
use arango_sparql_py.Aql.Clauses.{
  filter_eq, filter_raw, let_clause, insert_first, let_first, sort_here, limit_here, collect,
  name_or_bind, attribute_exists, sort, limit,
}
use arango_sparql_py.Aql.Loops.{
  scan, for_collection, for_source, any_direction, for_traversal, add_with, sub_scans, for_sharded,
  for_union, for_inline, one_row_scope, open_one_row_scope_first, for_values, for_subquery,
  for_attributes,
}

-- The two builders have the same bind names and collection cache.
abbrev pub SameNames : Builder → Builder → Type 0
SameNames b c =
    (b.bind_counter ≡ c.bind_counter)
    × (b.coll_counter ≡ c.coll_counter)
    × (b.coll_bind_by_name ≡ c.coll_bind_by_name)
    × (b.bind_vars ≡ c.bind_vars)

-- `P` depends on the names alone, and the two methods that make names keep it.
pub record OfNames ⦃u : Unicode⦄ (P : Builder → Type 0) : Type 0 where
  pub stable : (b c : Builder) → SameNames b c → P b → P c
  pub bind_keeps : (value : Value) (hint : Option Str) → Keeps P (bind value hint)
  pub coll_keeps : (c : Str) → Keeps P (bind_collection c)

module _ ⦃u : Unicode⦄ {P : Builder → Type 0} (names : OfNames P) where
  pub add_clause-Keeps : (kind : ClauseKind) (text : Str) → Keeps P (add_clause kind text)
  unfolding add_clause
  add_clause-Keeps kind text = record { at = λ b h. names.stable b _ ((refl, refl, refl, refl)) h }

  pub add_scanned-Keeps : (alias : Str) → Keeps P (add_scanned alias)
  unfolding add_scanned
  add_scanned-Keeps alias = record { at = λ b h. names.stable b _ ((refl, refl, refl, refl)) h }

  pub modify-Keeps :
      (f : Builder → Builder) → ((b : Builder) → SameNames b (f b)) → Keeps P (modify f)
  modify-Keeps f s = Keeps-modify f (λ b h. names.stable b (f b) (s b) h)

  pub count_alias-Keeps : Keeps P (modify (λ b. record b { alias_counter = b.alias_counter + 1 }))
  count_alias-Keeps = modify-Keeps _ λ b. (refl, refl, refl, refl)

  pub fresh_alias-Keeps : (prefix : Str) → Keeps P (fresh_alias prefix)
  unfolding fresh_alias
  fresh_alias-Keeps prefix = search (keeps_rules, count_alias-Keeps)

  pub insert_first-Keeps : (kind : ClauseKind) (text : Str) → Keeps P (insert_first kind text)
  unfolding insert_first modify
  insert_first-Keeps kind text = record {
    at = λ b h. names.stable b _ ((refl, refl, refl, refl)) h;
  }

  pub filter_eq-Keeps : (lhs rhs : Str) → Keeps P (filter_eq lhs rhs)
  unfolding filter_eq
  filter_eq-Keeps lhs rhs = search (keeps_rules, add_clause-Keeps)

  pub filter_raw-Keeps : (expression : Str) → Keeps P (filter_raw expression)
  unfolding filter_raw
  filter_raw-Keeps expression = search (keeps_rules, add_clause-Keeps)

  pub let_clause-Keeps : (alias expression : Str) → Keeps P (let_clause alias expression)
  unfolding let_clause
  let_clause-Keeps alias expression = search (keeps_rules, add_clause-Keeps)

  pub let_first-Keeps : (alias expression : Str) → Keeps P (let_first alias expression)
  unfolding let_first
  let_first-Keeps alias expression = search (keeps_rules, insert_first-Keeps)

  pub sort_here-Keeps :
      (expression : Str) (descending : Bool) → Keeps P (sort_here expression descending)
  unfolding sort_here
  sort_here-Keeps expression descending = search (keeps_rules, add_clause-Keeps)

  pub limit_here-Keeps : (count_bind : Str) → Keeps P (limit_here count_bind)
  unfolding limit_here
  limit_here-Keeps count_bind = search (keeps_rules, add_clause-Keeps)

  pub collect-Keeps :
      (keys aggregates : List (Str × Str)) (count_into : Option Str)
      → Keeps P (collect keys aggregates count_into)
  unfolding collect
  collect-Keeps keys aggregates count_into = search (keeps_rules, add_clause-Keeps) depth 14

  pub name_or_bind-Keeps : (last : Str) → Keeps P (name_or_bind last)
  unfolding name_or_bind
  name_or_bind-Keeps last = search (keeps_rules, names.bind_keeps)

  pub attribute_exists-Keeps :
      (alias : Str) (path : List Str) → Keeps P (attribute_exists alias path)
  unfolding attribute_exists
  attribute_exists-Keeps alias [] = search keeps_rules
  attribute_exists-Keeps alias (first ∷ path) = search (keeps_rules, name_or_bind-Keeps)

  pub sort-Keeps : (expression : Str) (descending : Bool) → Keeps P (sort expression descending)
  unfolding sort modify
  sort-Keeps expression descending = record {
    at = λ b h. names.stable b _ ((refl, refl, refl, refl)) h;
  }

  pub set_limit-Keeps : (o : Option Clause) → Keeps P (modify (λ b. record b { limit_clause = o }))
  set_limit-Keeps o = modify-Keeps _ λ b. (refl, refl, refl, refl)

  pub limit-Keeps : (count offset : ℤ) → Keeps P (limit count offset)
  unfolding limit
  limit-Keeps (negsuc c) offset = search keeps_rules
  limit-Keeps (pos c) (negsuc o) = search keeps_rules
  limit-Keeps (pos c) (pos o) = search (keeps_rules, set_limit-Keeps)

  pub scan-Keeps : (alias source : Str) → Keeps P (scan alias source)
  unfolding scan
  scan-Keeps alias source = search (keeps_rules, add_clause-Keeps, add_scanned-Keeps)

  pub for_collection-Keeps : (alias c : Str) → Keeps P (for_collection alias c)
  unfolding for_collection
  for_collection-Keeps alias c = search (keeps_rules, scan-Keeps, names.coll_keeps)

  pub for_source-Keeps :
      (alias source : Str) (search_part options : Option Str)
      → Keeps P (for_source alias source search_part options)
  unfolding for_source
  for_source-Keeps alias source search_part options = search (keeps_rules, scan-Keeps)

  pub any_direction-Keeps :
      (vertex edge start coll_ref : Str) → Keeps P (any_direction vertex edge start coll_ref)
  unfolding any_direction
  any_direction-Keeps vertex edge start coll_ref =
      search (keeps_rules, add_clause-Keeps, let_clause-Keeps)

  pub for_traversal-Keeps :
      (vertex edge start c direction : Str) → Keeps P (for_traversal vertex edge start c direction)
  unfolding for_traversal
  for_traversal-Keeps vertex edge start c direction =
      search (keeps_rules, add_clause-Keeps, any_direction-Keeps, names.coll_keeps) depth 14

  pub add_with-Keeps : (member : Str) → Keeps P (add_with member)
  unfolding add_with modify
  add_with-Keeps member = record { at = λ b h. names.stable b _ ((refl, refl, refl, refl)) h }

  pub sub_scans-Keeps : (scans members : List Str) → Keeps P (sub_scans scans members)
  unfolding sub_scans
  sub_scans-Keeps scans [] = search keeps_rules
  sub_scans-Keeps scans (member ∷ members) = search (
    keeps_rules,
    fresh_alias-Keeps,
    names.coll_keeps,
    add_with-Keeps,
    λ (s : List Str). sub_scans-Keeps s members,
  )

  pub for_sharded-Keeps : (alias : Str) (members : List Str) → Keeps P (for_sharded alias members)
  unfolding for_sharded
  for_sharded-Keeps alias members = search (keeps_rules, sub_scans-Keeps, scan-Keeps)

  pub for_union-Keeps :
      (alias : Str) (arms : List Str) (distinct documents : Bool)
      → Keeps P (for_union alias arms distinct documents)
  unfolding for_union
  for_union-Keeps alias arms distinct documents =
      search (keeps_rules, add_clause-Keeps, add_scanned-Keeps) depth 14

  pub for_inline-Keeps : (alias expression : Str) → Keeps P (for_inline alias expression)
  unfolding for_inline
  for_inline-Keeps alias expression = search (keeps_rules, add_clause-Keeps)

  pub one_row_scope-Keeps :
      (alias : Str) (open_already : Bool) → Keeps P (one_row_scope alias open_already)
  unfolding one_row_scope
  one_row_scope-Keeps alias true = search keeps_rules
  one_row_scope-Keeps alias false = search (keeps_rules, insert_first-Keeps)

  pub open_one_row_scope_first-Keeps : (alias : Str) → Keeps P (open_one_row_scope_first alias)
  unfolding open_one_row_scope_first
  open_one_row_scope_first-Keeps alias = search (keeps_rules, one_row_scope-Keeps)

  pub for_values-Keeps : (alias values : Str) → Keeps P (for_values alias values)
  unfolding for_values
  for_values-Keeps alias values = search (keeps_rules, add_clause-Keeps)

  pub for_subquery-Keeps : (alias inner : Str) → Keeps P (for_subquery alias inner)
  unfolding for_subquery
  for_subquery-Keeps alias inner = search (keeps_rules, add_clause-Keeps)

  pub for_attributes-Keeps : (key document : Str) → Keeps P (for_attributes key document)
  unfolding for_attributes
  for_attributes-Keeps key document = search (keeps_rules, add_clause-Keeps)
