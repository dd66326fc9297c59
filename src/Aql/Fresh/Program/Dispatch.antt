-- ===== src/Aql/Fresh/Program/Dispatch.antt =====
-- The same for whichever method of translate/builder.py is called.
use arango_sparql_py.Aql.State.{Builder, Emit}
use arango_sparql_py.Aql.Mint.{Unicode}
use arango_sparql_py.Aql.Keeps.{Keeps, Keeps-pure, Keeps-bind}
use arango_sparql_py.Aql.Fresh.Program.Calls.{Method, run_method, finish}
use arango_sparql_py.Aql.Fresh.Program.Methods.{
  OfNames, fresh_alias-Keeps, filter_eq-Keeps, filter_raw-Keeps, let_clause-Keeps, let_first-Keeps,
  sort_here-Keeps, limit_here-Keeps, collect-Keeps, attribute_exists-Keeps, sort-Keeps, limit-Keeps,
  for_collection-Keeps, for_source-Keeps, for_traversal-Keeps, for_sharded-Keeps, for_union-Keeps,
  for_inline-Keeps, open_one_row_scope_first-Keeps, for_values-Keeps, for_subquery-Keeps,
  for_attributes-Keeps,
}
use arango_sparql_py.Aql.Fresh.Program.Outputs.{
  return_object-Keeps, return_scalar-Keeps, return_triples-Keeps, return_triples_subquery-Keeps,
  set_ask_mode-Keeps, set_empty_result_fallback-Keeps, clear_empty_result_fallback-Keeps,
  warn-Keeps, finalize-Keeps,
}

module _ ⦃u : Unicode⦄ {P : Builder → Type 0} (names : OfNames P) where
  finish-Keeps {ℓ} : {A : Type ℓ} (m : Emit A) → Keeps P m → Keeps P (finish m)
  finish-Keeps m k = Keeps-bind m _ k λ a. Keeps-pure tt

  pub run_method-Keeps : (m : Method) → Keeps P (run_method m)
  unfolding run_method
  run_method-Keeps (Method.alias_call prefix) = finish-Keeps _ (fresh_alias-Keeps names prefix)
  run_method-Keeps (Method.bind_call value hint) = finish-Keeps _ (names.bind_keeps value hint)
  run_method-Keeps (Method.collection_call c) = finish-Keeps _ (names.coll_keeps c)
  run_method-Keeps (Method.scan_call_of alias) = open_one_row_scope_first-Keeps names alias
  run_method-Keeps (Method.for_call alias c) = for_collection-Keeps names alias c
  run_method-Keeps (Method.source_call alias source s o) = for_source-Keeps names alias source s o
  run_method-Keeps (Method.traversal_call vertex edge start c direction) =
      for_traversal-Keeps names vertex edge start c direction
  run_method-Keeps (Method.sharded_call alias members) = for_sharded-Keeps names alias members
  run_method-Keeps (Method.union_call alias arms d s) = for_union-Keeps names alias arms d s
  run_method-Keeps (Method.inline_call alias e) = for_inline-Keeps names alias e
  run_method-Keeps (Method.values_call alias v) = for_values-Keeps names alias v
  run_method-Keeps (Method.subquery_call alias inner) = for_subquery-Keeps names alias inner
  run_method-Keeps (Method.attributes_call key document) = for_attributes-Keeps names key document
  run_method-Keeps (Method.eq_call lhs rhs) = filter_eq-Keeps names lhs rhs
  run_method-Keeps (Method.let_call alias e) = let_clause-Keeps names alias e
  run_method-Keeps (Method.let_first_call alias e) = let_first-Keeps names alias e
  run_method-Keeps (Method.raw_call e) = filter_raw-Keeps names e
  run_method-Keeps (Method.limit_here_call c) = limit_here-Keeps names c
  run_method-Keeps (Method.collect_call keys aggregates into) =
      collect-Keeps names keys aggregates into
  run_method-Keeps (Method.exists_call alias path) =
      finish-Keeps _ (attribute_exists-Keeps names alias path)
  run_method-Keeps (Method.sort_call e d) = sort-Keeps names e d
  run_method-Keeps (Method.sort_here_call e d) = sort_here-Keeps names e d
  run_method-Keeps (Method.limit_call c o) = limit-Keeps names c o
  run_method-Keeps (Method.object_call mapping d) = return_object-Keeps names mapping d
  run_method-Keeps (Method.scalar_call e) = return_scalar-Keeps names e
  run_method-Keeps (Method.triples_subquery_call e) = return_triples_subquery-Keeps names e
  run_method-Keeps (Method.triples_call ts) = return_triples-Keeps names ts
  run_method-Keeps Method.ask_call = set_ask_mode-Keeps names
  run_method-Keeps Method.fallback_call = set_empty_result_fallback-Keeps names
  run_method-Keeps Method.no_fallback_call = clear_empty_result_fallback-Keeps names
  run_method-Keeps Method.finalize_call = finish-Keeps _ (finalize-Keeps names)
  run_method-Keeps (Method.warn_call code message extra) = warn-Keeps names code message extra
