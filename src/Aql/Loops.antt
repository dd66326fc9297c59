-- ===== src/Aql/Loops.antt =====
-- The loops of `AqlQueryBuilder`: `for_`, `for_source`, `for_traversal`, `for_sharded`, `for_union`
-- and the others of arango_sparql/translate/builder.py that emit a FOR.
use arango_sparql_py.Base.{Bool, true, false, not, Option, none, some, List, [], ◌∷◌, ◌++◌, map}
use arango_sparql_py.Base.Tests.{if◌then◌else◌, leb}
use arango_sparql_py.Base.Eq.{◌==◌, nat_eq, list_eq}
use arango_sparql_py.Base.Lists.{is_nil, all, join, contains, all_distinct, length}
use arango_sparql_py.Base.Str.{Str, codes, starts_with, strip}
use arango_sparql_py.Base.Lines.{indent}
use arango_sparql_py.Errors.{value_error, aql_emit_error}
use arango_sparql_py.Aql.Names.{matches_ident}
use arango_sparql_py.Aql.State.{
  for_kind, Emit, pure, gets, modify, require, add_clause, add_scanned, has_for_clause, ◌>>=◌, ◌>>◌,
}
use arango_sparql_py.Aql.Mint.{Unicode, fresh_alias, bind_collection}
use arango_sparql_py.Aql.Clauses.{let_clause, filter_raw, insert_first, is_value_placeholder}

abbrev for_text : Str → Str → Str
for_text alias source = codes "FOR " ++ alias ++ codes " IN " ++ source

-- a FOR over documents: its alias counts as scanned
unfoldable pub scan : Str → Str → Emit (Unit {0})
unfolding ◌>>=◌ add_clause add_scanned
scan alias source = do add_clause for_kind (for_text alias source); add_scanned alias

-- `for_`
unfoldable pub for_collection : ⦃u : Unicode⦄ → Str → Str → Emit (Unit {0})
unfolding ◌>>=◌ require scan
for_collection ⦃u⦄ alias collection = do
  require (matches_ident alias) value_error
  coll_ref ← bind_collection collection
  scan alias coll_ref

abbrev optional_part : Str → Option Str → Str
optional_part keyword none = []
optional_part keyword (some s) = keyword ++ s

unfoldable pub for_source : Str → Str → Option Str → Option Str → Emit (Unit {0})
unfolding ◌>>=◌ require scan
for_source alias source_bind search options = do
  require (matches_ident alias) value_error
  require (starts_with source_bind (codes "@@")) value_error
  scan alias (
      source_bind
      ++ optional_part (codes " SEARCH ") search
      ++ optional_part (codes " OPTIONS ") options)

-- An edge read in both directions: one loop over the edges that touch the start.
unfoldable pub any_direction : Str → Str → Str → Str → Emit (Unit {0})
unfolding ◌>>=◌ add_clause filter_raw let_clause
any_direction vertex edge start coll_ref =
    let start_id = start ++ codes "._id" in
    do
      add_clause for_kind (for_text edge coll_ref)
      filter_raw (
          edge
          ++ codes "._from == "
          ++ start_id
          ++ codes " || "
          ++ edge
          ++ codes "._to == "
          ++ start_id)
      let_clause vertex (
          codes "DOCUMENT("
          ++ edge
          ++ codes "._from == "
          ++ start_id
          ++ codes " ? "
          ++ edge
          ++ codes "._to : "
          ++ edge
          ++ codes "._from)")

abbrev directions : List Str
directions = map codes ("OUTBOUND" ∷ "INBOUND" ∷ "ANY" ∷ [])

unfoldable pub for_traversal : ⦃u : Unicode⦄ → Str → Str → Str → Str → Str → Emit (Unit {0})
unfolding ◌>>=◌ require add_clause any_direction
for_traversal ⦃u⦄ vertex edge start edge_collection direction = do
  require (matches_ident vertex) value_error
  require (matches_ident edge) value_error
  require (matches_ident start) value_error
  require (contains direction directions) value_error
  coll_ref ← bind_collection edge_collection
  if direction == codes "ANY"
      then any_direction vertex edge start coll_ref
      else add_clause for_kind (
          codes "FOR "
          ++ vertex
          ++ codes ", "
          ++ edge
          ++ codes " IN "
          ++ direction
          ++ codes " "
          ++ start
          ++ codes " "
          ++ coll_ref)

unfoldable pub add_with : Str → Emit (Unit {0})
unfolding modify
add_with member = modify (λ b. record b {
  with_collections =
      if contains member b.with_collections
      then b.with_collections
      else b.with_collections ++ member ∷ [];
})

-- the loop of `for_sharded` over the members
unfoldable pub sub_scans : ⦃u : Unicode⦄ → List Str → List Str → Emit (List Str)
unfolding pure ◌>>=◌ add_with
sub_scans ⦃u⦄ scans [] = pure scans
sub_scans ⦃u⦄ scans (member ∷ members) = do
  inner ← fresh_alias (codes "doc")
  coll_ref ← bind_collection member
  add_with member
  sub_scans
      (scans
        ++ (codes "(" ++ for_text inner coll_ref ++ codes " RETURN " ++ inner ++ codes ")") ∷ [])
      members

unfoldable pub for_sharded : ⦃u : Unicode⦄ → Str → List Str → Emit (Unit {0})
unfolding ◌>>=◌ require scan sub_scans
for_sharded ⦃u⦄ alias members = do
  require (matches_ident alias) value_error
  require (not (is_nil members)) aql_emit_error
  require (all_distinct members) aql_emit_error
  scans ← sub_scans [] members
  scan alias (
      codes "UNION_DISTINCT("
      ++ 10 ∷ (codes "  " ++ join (44 ∷ 10 ∷ codes "  ") scans ++ 10 ∷ codes ")"))

abbrev is_blank : Str → Bool
is_blank s = is_nil (strip s)

abbrev block : Str → Str
block aql = b'(' ∷ 10 ∷ (indent aql ++ 10 ∷ b')' ∷ [])

unfoldable pub for_union : Str → List Str → Bool → Bool → Emit (Unit {0})
unfolding ◌>>=◌ require add_clause add_scanned pure
for_union row_alias arms distinct scans_documents = do
  require (matches_ident row_alias) value_error
  require (leb 2 (length arms)) aql_emit_error
  require (all (λ arm. not (is_blank arm)) arms) aql_emit_error
  add_clause for_kind (
      for_text row_alias (
        (if distinct then codes "UNION_DISTINCT" else codes "UNION")
        ++ b'(' ∷ 10 ∷ (join (44 ∷ 10 ∷ []) (map block arms) ++ 10 ∷ b')' ∷ [])))
  if scans_documents then add_scanned row_alias else pure tt

unfoldable pub for_inline : Str → Str → Emit (Unit {0})
unfolding ◌>>=◌ require add_clause
for_inline row_alias inline_expr = do
  require (matches_ident row_alias) value_error
  require (not (is_blank inline_expr)) aql_emit_error
  add_clause for_kind (for_text row_alias inline_expr)

unfoldable pub one_row_scope : Str → Bool → Emit (Unit {0})
unfolding ◌>>=◌ require insert_first pure
one_row_scope row_alias true = pure tt
one_row_scope row_alias false = do
  require (matches_ident row_alias) value_error
  insert_first for_kind (for_text row_alias (codes "[1]"))

unfoldable pub open_one_row_scope_first : Str → Emit (Unit {0})
unfolding ◌>>=◌ one_row_scope has_for_clause
open_one_row_scope_first row_alias = do
  open_already ← gets has_for_clause
  one_row_scope row_alias open_already

unfoldable pub for_values : Str → Str → Emit (Unit {0})
unfolding ◌>>=◌ require add_clause
for_values row_alias values_bind = do
  require (matches_ident row_alias) value_error
  require (is_value_placeholder values_bind) value_error
  add_clause for_kind (for_text row_alias values_bind)

unfoldable pub for_subquery : Str → Str → Emit (Unit {0})
unfolding ◌>>=◌ require add_clause
for_subquery row_alias inner_aql = do
  require (matches_ident row_alias) value_error
  require (not (is_blank inner_aql)) aql_emit_error
  add_clause for_kind (for_text row_alias (block inner_aql))

unfoldable pub for_attributes : Str → Str → Emit (Unit {0})
unfolding ◌>>=◌ require add_clause
for_attributes key_alias document_alias = do
  require (matches_ident key_alias) value_error
  require (matches_ident document_alias) value_error
  add_clause for_kind
      (for_text key_alias (codes "ATTRIBUTES(" ++ document_alias ++ codes ", true)"))
