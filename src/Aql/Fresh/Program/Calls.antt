-- ===== src/Aql/Fresh/Program/Calls.antt =====
-- The methods of the builder of translate/builder.py as one type of calls.
use arango_sparql_py.Base.Numbers.{ℤ}
use arango_sparql_py.Base.{◌≡◌, refl, Bool, List, Option}
use arango_sparql_py.Base.Eq.{nat_eq, list_eq}
use arango_sparql_py.Base.Dict.{Dict}
use arango_sparql_py.Base.Str.{Str}
use arango_sparql_py.Errors.{Result, ok, err}
use arango_sparql_py.Aql.State.{Value, Builder, Emit, pure, continue, ◌>>=◌}
use arango_sparql_py.Aql.Mint.{Unicode, fresh_alias, bind, bind_collection}
use arango_sparql_py.Aql.Clauses.{
  filter_eq, filter_raw, let_clause, let_first, sort_here, limit_here, collect, attribute_exists,
  sort, limit,
}
use arango_sparql_py.Aql.Loops.{
  for_collection, for_source, for_traversal, for_sharded, for_union, for_inline,
  open_one_row_scope_first, for_values, for_subquery, for_attributes,
}
use arango_sparql_py.Aql.Output.{
  return_object, return_scalar, return_triples, return_triples_subquery, set_ask_mode,
  set_empty_result_fallback, clear_empty_result_fallback, warn,
}
use arango_sparql_py.Aql.Finalize.{finalize}

pub data Method : Type 0 where
  alias_call : Str → Method
  bind_call : Value → Option Str → Method
  collection_call scan_call_of : Str → Method
  for_call : Str → Str → Method
  source_call : Str → Str → Option Str → Option Str → Method
  traversal_call : Str → Str → Str → Str → Str → Method
  sharded_call : Str → List Str → Method
  union_call : Str → List Str → Bool → Bool → Method
  inline_call values_call subquery_call attributes_call : Str → Str → Method
  eq_call let_call let_first_call : Str → Str → Method
  raw_call limit_here_call : Str → Method
  collect_call : List (Str × Str) → List (Str × Str) → Option Str → Method
  exists_call : Str → List Str → Method
  sort_call sort_here_call : Str → Bool → Method
  limit_call : ℤ → ℤ → Method
  object_call : List (Str × Str) → Bool → Method
  scalar_call triples_subquery_call : Str → Method
  triples_call : List (Str × Str × Str) → Method
  ask_call fallback_call no_fallback_call finalize_call : Method
  warn_call : Str → Str → Dict Str Value → Method

abbrev pub finish {ℓ} : {A : Type ℓ} → Emit A → Emit (Unit {0})
finish m = m >>= λ a. pure tt

state-continue {ℓ} :
    {A : Type ℓ} (r : Result A) (b : Builder) → (continue {ℓ, 0} r (λ a. pure tt) b).1 ≡ b
unfolding pure
state-continue (ok a) b = refl
state-continue (err e) b = refl

pub state-finish {ℓ} : {A : Type ℓ} (m : Emit A) (b : Builder) → (finish m b).1 ≡ (m b).1
unfolding ◌>>=◌
state-finish m b = state-continue (m b).0 (m b).1

module _ ⦃u : Unicode⦄ where
  unfoldable pub run_method : Method → Emit (Unit {0})
  run_method (alias_call prefix) = finish (fresh_alias prefix)
  run_method (bind_call value hint) = finish (bind value hint)
  run_method (collection_call c) = finish (bind_collection c)
  run_method (scan_call_of alias) = open_one_row_scope_first alias
  run_method (for_call alias c) = for_collection alias c
  run_method (source_call alias source s o) = for_source alias source s o
  run_method (traversal_call vertex edge start c direction) =
      for_traversal vertex edge start c direction
  run_method (sharded_call alias members) = for_sharded alias members
  run_method (union_call alias arms d s) = for_union alias arms d s
  run_method (inline_call alias e) = for_inline alias e
  run_method (values_call alias v) = for_values alias v
  run_method (subquery_call alias inner) = for_subquery alias inner
  run_method (attributes_call key document) = for_attributes key document
  run_method (eq_call lhs rhs) = filter_eq lhs rhs
  run_method (let_call alias e) = let_clause alias e
  run_method (let_first_call alias e) = let_first alias e
  run_method (raw_call e) = filter_raw e
  run_method (limit_here_call c) = limit_here c
  run_method (collect_call keys aggregates into) = collect keys aggregates into
  run_method (exists_call alias path) = finish (attribute_exists alias path)
  run_method (sort_call e d) = sort e d
  run_method (sort_here_call e d) = sort_here e d
  run_method (limit_call c o) = limit c o
  run_method (object_call mapping d) = return_object mapping d
  run_method (scalar_call e) = return_scalar e
  run_method (triples_subquery_call e) = return_triples_subquery e
  run_method (triples_call ts) = return_triples ts
  run_method ask_call = set_ask_mode
  run_method fallback_call = set_empty_result_fallback
  run_method no_fallback_call = clear_empty_result_fallback
  run_method finalize_call = finish finalize
  run_method (warn_call code message extra) = warn code message extra
