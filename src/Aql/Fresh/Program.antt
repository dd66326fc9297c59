-- ===== src/Aql/Fresh/Program.antt =====
-- Every sequence of calls of the builder of translate/builder.py, sub-queries in child builders
-- included, keeps the bind names fresh.
pub mod Calls
mod Methods
mod Outputs
mod Dispatch
use Calls.{Method, run_method, finish, state-finish}
use Methods.{SameNames, OfNames}
use Outputs.{finalize-Keeps}
use Dispatch.{run_method-Keeps}
use arango_sparql_py.Base.{
  ℕ, ◌+◌, ◌≤◌, ◌<◌, ◌≡◌, refl, Bool, List, [], ◌∷◌, Option, none, some, arith, inl, inr, ◌⊎◌, sym,
  ◌∙◌, subst,
}
use arango_sparql_py.Base.Eq.{nat_eq, list_eq}
use arango_sparql_py.Base.Dict.{Dict, get}
use arango_sparql_py.Base.Str.{Str}
use arango_sparql_py.Errors.{Error, Result, ok, err}
use arango_sparql_py.Aql.State.{Value, Builder, Emit, pure, raise, continue, ◌>>=◌, ◌>>◌}
use arango_sparql_py.Aql.Mint.{Unicode, fresh_alias, bind, bind_collection}
use arango_sparql_py.Aql.Keeps.{Keeps, Keeps-pure, Keeps-bind}
use arango_sparql_py.Aql.Clauses.{
  filter_eq, filter_raw, let_clause, let_first, sort_here, limit_here, collect, attribute_exists,
  sort, limit,
}
use arango_sparql_py.Aql.Loops.{
  for_collection, for_source, for_traversal, for_sharded, for_union, for_inline,
  open_one_row_scope_first, for_values, for_subquery, for_attributes,
}
use arango_sparql_py.Aql.Output.{
  return_object, return_scalar, return_triples, return_triples_subquery, set_ask_mode,
  set_empty_result_fallback, clear_empty_result_fallback, warn,
}
use arango_sparql_py.Aql.Finalize.{finalize, create_child, absorb_child}
use arango_sparql_py.Base.Dict.Distinct.{Distinct}
use arango_sparql_py.Aql.Fresh.{bind_index, coll_index, IsFresh, IsAbove}
use arango_sparql_py.Aql.Fresh.Mint.{
  bind-Keeps-IsFresh, bind-Keeps-IsAbove, bind_collection-Keeps-IsFresh,
  bind_collection-Keeps-IsAbove, Result-cases,
}
use arango_sparql_py.Aql.Fresh.Child.{create_child-IsFresh, create_child-IsAbove}
use arango_sparql_py.Aql.Fresh.Absorb.{Absorbed, advanced, absorb_failed, absorb_succeeded}

stable-IsFresh : (b c : Builder) → SameNames b c → IsFresh b → IsFresh c
stable-IsFresh b c s h = record {
  bind_used = λ k v n g i. omega (arith, s.0, h.bind_used k v n (rw (← s.3) at g) i);
  coll_used = λ k v n g i. omega (arith, s.1, h.coll_used k v n (rw (← s.3) at g) i);
  cached = λ x n g. rw (← s.3) (h.cached x n (rw (← s.2) at g));
  distinct = rw (← s.3) h.distinct;
}

stable-IsAbove :
    (low high : ℕ) (b c : Builder) → SameNames b c → IsAbove low high b → IsAbove low high c
stable-IsAbove low high b c s h = record {
  bind_le = omega (arith, s.0, h.bind_le);
  coll_le = omega (arith, s.1, h.coll_le);
  above = λ k v g. h.above k v (rw (← s.3) at g);
}

mutual
  -- `sub_query` makes a child, runs the calls on it, and absorbs it.
  pub data Call : Type 0 where
    method : Method → Call
    sub_query : Script → Call

  pub data Script : Type 0 where
    done : Script
    next : Call → Script → Script

module _ ⦃u : Unicode⦄ where
  -- the end of a sub-query: an error of the child's calls leaves the parent alone
  abbrev pub absorbing : Result (Unit {0}) × Builder → Emit (Unit {0})
  absorbing (err e, child) = raise e
  absorbing (ok x, child) = finish (absorb_child child)

  unfoldable mutual
    pub run : Call → Emit (Unit {0})
    run (method m) = run_method m
    run (sub_query calls) = λ b. absorbing (run_all calls (create_child b)) b

    pub run_all : Script → Emit (Unit {0})
    run_all done = pure tt
    run_all (next c cs) = run c >>= λ x. run_all cs

-- Fresh names, in a child also above its parent's counters.
abbrev IsBounded : Option (ℕ × ℕ) → Builder → Type 0
IsBounded none b = Unit
IsBounded (some (low, high)) b = IsAbove low high b

abbrev IsSound : Option (ℕ × ℕ) → Builder → Type 0
IsSound bounds b = IsFresh b × IsBounded bounds b

stable-IsSound :
    (bounds : Option (ℕ × ℕ)) (b c : Builder) → SameNames b c → IsSound bounds b → IsSound bounds c
stable-IsSound none b c s h = (stable-IsFresh b c s h.0, tt)
stable-IsSound (some (low, high)) b c s h =
    (stable-IsFresh b c s h.0, stable-IsAbove low high b c s h.1)

bind-Keeps-IsSound :
    (bounds : Option (ℕ × ℕ)) (value : Value) (hint : Option Str)
    → Keeps (IsSound bounds) (bind value hint)
bind-Keeps-IsSound none value hint = record {
  at = λ b h. ((bind-Keeps-IsFresh value hint).at b h.0, tt);
}
bind-Keeps-IsSound (some (low, high)) value hint = record {
  at = λ b h. ((bind-Keeps-IsFresh value hint).at b h.0, (bind-Keeps-IsAbove value hint).at b h.1);
}

absorbed-IsBounded :
    (bounds : Option (ℕ × ℕ)) (b : Builder) {c : Builder}
    → ((low high : ℕ) → IsAbove low high b → IsAbove low high c)
    → IsBounded bounds b
    → IsBounded bounds c
absorbed-IsBounded none b f h = tt
absorbed-IsBounded (some (low, high)) b f h = f low high h

module _ ⦃u : Unicode⦄ where
  collection-Keeps-IsSound :
      (bounds : Option (ℕ × ℕ)) (c : Str) → Keeps (IsSound bounds) (bind_collection c)
  collection-Keeps-IsSound none c = record {
    at = λ b h. ((bind_collection-Keeps-IsFresh c).at b h.0, tt);
  }
  collection-Keeps-IsSound (some (low, high)) c = record {
    at = λ b h.
        ((bind_collection-Keeps-IsFresh c).at b h.0, (bind_collection-Keeps-IsAbove c).at b h.1);
  }

  IsSound-OfNames : (bounds : Option (ℕ × ℕ)) → OfNames (IsSound bounds)
  IsSound-OfNames bounds = record {
    stable = stable-IsSound bounds;
    bind_keeps = bind-Keeps-IsSound bounds;
    coll_keeps = collection-Keeps-IsSound bounds;
  }

  finalize-Keeps-IsSound : (bounds : Option (ℕ × ℕ)) → Keeps (IsSound bounds) finalize
  finalize-Keeps-IsSound bounds = finalize-Keeps (IsSound-OfNames bounds)

  module _ (bounds : Option (ℕ × ℕ)) (b : Builder) (h : IsSound bounds b) where
    absorb-IsSound :
        (child : Builder)
        → IsSound (some (b.bind_counter, b.coll_counter)) child
        → IsSound bounds (absorb_child child b).1
    absorb-IsSound child hc = elim (Result-cases (finalize child).0) [
      | inl ((aql, binds), f) ↦
          let hc' = (finalize-Keeps-IsSound (some (b.bind_counter, b.coll_counter))).at child hc in
          let a =
            absorb_succeeded b child (finalize child).1 aql binds h.0 hc'.0 hc'.1
              (λ i. (f i, (finalize child).1)) in
          rw a.absorbed (a.fresh, absorbed-IsBounded bounds b a.above h.1)
      | inr (e, f) ↦
          rw (absorb_failed b child (finalize child).1 e (λ i. (f i, (finalize child).1))) h
    ]

    absorbing-IsSound :
        (r : Result (Unit {0})) (child : Builder)
        → IsSound (some (b.bind_counter, b.coll_counter)) child
        → IsSound bounds (absorbing (r, child) b).1
    unfolding raise
    absorbing-IsSound (err e) child hc = h
    absorbing-IsSound (ok x) child hc =
        rw (state-finish (absorb_child child) b) (absorb-IsSound child hc)

  mutual
    unfolding run

    run-IsSound : (bounds : Option (ℕ × ℕ)) (c : Call) → Keeps (IsSound bounds) (run c)
    run-IsSound bounds (method m) = run_method-Keeps (IsSound-OfNames bounds) m
    run-IsSound bounds (sub_query cs) = record {
      at = λ b h.
          absorbing-IsSound bounds b h (run_all cs (create_child b)).0
            (run_all cs (create_child b)).1
            ((run_all-IsSound (some (b.bind_counter, b.coll_counter)) cs).at (create_child b)
              (create_child-IsFresh b, create_child-IsAbove b));
    }

    run_all-IsSound : (bounds : Option (ℕ × ℕ)) (cs : Script) → Keeps (IsSound bounds) (run_all cs)
    run_all-IsSound bounds done = Keeps-pure tt
    run_all-IsSound bounds (next c cs) =
        Keeps-bind _ _ (run-IsSound bounds c) λ x. run_all-IsSound bounds cs

  -- Whatever methods are called, in whatever order, also in nested sub-queries and up to an error:
  -- a builder whose bind names are fresh keeps them fresh.
  pub run_all-IsFresh : (cs : Script) (b : Builder) → IsFresh b → IsFresh (run_all cs b).1
  run_all-IsFresh cs b h = ((run_all-IsSound none cs).at b (h, tt)).0

  -- A sub-query that was built by any methods in a child of `create_child` is absorbed without a
  -- name collision: where its own `finalize` returns a text, so does `absorb_child`, and then every
  -- bind name of the child and every one of the parent stands in the parent for what it stood for.
  pub absorb_never_collides :
      (cs : Script) (b child : Builder) (aql : Str) (binds : Dict Str Value)
      → IsFresh b
      → finalize (run_all cs (create_child b)).1 ≡ (ok (aql, binds), child)
      → (vars : Dict Str Value) × (absorb_child (run_all cs (create_child b)).1 b
          ≡ (ok aql, advanced b child vars))
        × ((k : Str) (v : Value) → get k binds ≡ some v → get k vars ≡ some v)
        × ((k : Str) (v : Value) → get k b.bind_vars ≡ some v → get k vars ≡ some v)
  absorb_never_collides cs b child aql binds h f =
      let bounds = some (b.bind_counter, b.coll_counter) in
      let ran : IsSound bounds (run_all cs (create_child b)).1 =
        (run_all-IsSound bounds cs).at (create_child b)
          (create_child-IsFresh b, create_child-IsAbove b) in
      let finished = (finalize-Keeps-IsSound bounds).at (run_all cs (create_child b)).1 ran in
      let hc : IsSound bounds child = subst (λ r. IsSound bounds r.1) f finished in
      let a = absorb_succeeded b (run_all cs (create_child b)).1 child aql binds h hc.0 hc.1 f in
      (a.vars, a.absorbed, a.owned, a.kept)
