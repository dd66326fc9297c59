-- ===== src/Aql/Tests.antt =====
-- Runs of the builder of arango_sparql/translate/builder.py on small queries.
use arango_sparql_py.Base.Numbers.{pos}
use arango_sparql_py.Base.{true, false, [], ◌∷◌, refl, ◌≡◌}
use arango_sparql_py.Base.Dict.{Dict, get, put}
use arango_sparql_py.Base.Str.{Str, codes, chars, show, strip}
use arango_sparql_py.Base.Lines.{indent}
use arango_sparql_py.Errors.{ok}
use arango_sparql_py.Aql.Names.{object_key, is_aql_identifier, can_backtick_quote, matches_ident}
use arango_sparql_py.Aql.State.{
  Value, str, empty_builder, Emit, has_for_clause, require, ◌>>=◌, ◌>>◌,
}
use arango_sparql_py.Aql.Mint.{Unicode, fresh_alias, bind, bind_collection, valid_collection_name}
use arango_sparql_py.Aql.Clauses.{filter_eq, limit, sort, collect}
use arango_sparql_py.Aql.Loops.{for_collection, for_sharded, for_subquery}
use arango_sparql_py.Aql.Output.{return_object, set_ask_mode}
use arango_sparql_py.Aql.Finalize.{
  finalize, create_child, absorb_child, ordered_texts, plain_body, merge_binds, lines, assemble,
  bind_all, fallback_body, dedup_body, take_counters,
}

unfoldable pub running : Unit {0}
unfolding ◌>>=◌ fresh_alias bind bind_collection valid_collection_name matches_ident get put show
    chars strip indent filter_eq limit sort collect for_collection for_sharded for_subquery
    return_object set_ask_mode finalize create_child absorb_child ordered_texts plain_body
    merge_binds is_aql_identifier can_backtick_quote has_for_clause object_key assemble bind_all
    fallback_body dedup_body take_counters require
running = tt

abbrev pub ascii : Unicode
ascii = record { is_printable_high = λ c. false }

abbrev distinct_page : Emit (Str × Dict Str Value)
distinct_page = do
  for_collection ⦃u = ascii⦄ (codes "doc1") (codes "Person")
  return_object ((codes "n", codes "doc1.name") ∷ []) true
  sort (codes "doc1.name") false
  limit (pos 10) (pos 5)
  finalize ⦃u = ascii⦄

distinct_page_runs :
    (distinct_page empty_builder).0
    ≡ ok (
      lines (
          codes "LET deduped1 = ("
          ∷ codes "  FOR doc1 IN @@c1_Person"
          ∷ codes "  SORT doc1.name ASC"
          ∷ codes "  RETURN DISTINCT { n: doc1.name }"
          ∷ codes ")"
          ∷ codes "FOR row2 IN deduped1"
          ∷ codes "LIMIT 5, 10"
          ∷ codes "RETURN row2"
          ∷ []),
      (codes "@c1_Person", str (codes "Person")) ∷ [],
    )
unfolding running
distinct_page_runs = refl

abbrev sharded_ask : Emit (Str × Dict Str Value)
sharded_ask = do
  for_sharded ⦃u = ascii⦄ (codes "d") (codes "eu" ∷ codes "us" ∷ [])
  return_object [] false
  set_ask_mode
  finalize ⦃u = ascii⦄

sharded_ask_runs :
    (sharded_ask empty_builder).0
    ≡ ok (
      lines (
          codes "RETURN LENGTH("
          ∷ codes "  WITH @@c1_eu, @@c2_us"
          ∷ codes "  FOR d IN UNION_DISTINCT("
          ∷ codes "    (FOR doc1 IN @@c1_eu RETURN doc1),"
          ∷ codes "    (FOR doc2 IN @@c2_us RETURN doc2)"
          ∷ codes "  )"
          ∷ codes "  RETURN {  }"
          ∷ codes ") > 0"
          ∷ []),
      (codes "@c1_eu", str (codes "eu")) ∷ (codes "@c2_us", str (codes "us")) ∷ [],
    )
unfolding running
sharded_ask_runs = refl
