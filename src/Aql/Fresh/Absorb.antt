-- ===== src/Aql/Fresh/Absorb.antt =====
-- What `absorb_child` of translate/builder.py leaves in the parent, for a child that was made by
-- `create_child` from the parent's present counters.
use arango_sparql_py.Base.{ℕ, ◌≡◌, ◌∷◌, some, arith, inl, inr, ◌⊎◌}
use arango_sparql_py.Base.Tests.{Option-cases}
use arango_sparql_py.Base.Eq.{nat_eq, list_eq}
use arango_sparql_py.Base.Dict.{Dict, get}
use arango_sparql_py.Base.Str.{Str}
use arango_sparql_py.Errors.{Error, ok, err}
use arango_sparql_py.Aql.State.{Value, str, Builder, pure, raise, modify, ◌>>=◌}
use arango_sparql_py.Aql.Mint.{Unicode}
use arango_sparql_py.Base.Dict.Distinct.{Distinct}
use arango_sparql_py.Aql.Fresh.{IsFresh, IsAbove}
use arango_sparql_py.Aql.Fresh.Child.{
  or_else, Disjoint, merge_binds-Merges, finalize-HoldsVars, with_vars,
}
use arango_sparql_py.Aql.Finalize.{finalize, merge_binds, take_counters, absorb_child}

abbrev pub advanced : Builder → Builder → Dict Str Value → Builder
advanced b child vars = record b {
  bind_vars = vars;
  bind_counter = child.bind_counter;
  alias_counter = child.alias_counter;
  coll_counter = child.coll_counter;
}

module _ (b child : Builder) (h : IsFresh b) (hc : IsFresh child)
    (up : IsAbove b.bind_counter b.coll_counter child) where
  -- No name of the child's is in use in the parent.
  child-Disjoint : Disjoint child.bind_vars b.bind_vars
  child-Disjoint k = elim (Option-cases (get k child.bind_vars)) [
    | inl free ↦ inl free
    | inr (v, owned) ↦ elim (Option-cases (get k b.bind_vars)) [
      | inl free ↦ inr free
      | inr (w, taken) ↦ absurd (elim (up.above k v owned) [
        | inl (n, i, lt) ↦ omega (arith, h.bind_used k w n taken i)
        | inr (n, i, lt) ↦ omega (arith, h.coll_used k w n taken i)
      ])
    ]
  ]

  module _ (vars : Dict Str Value)
      (looks : (k : Str) → get k vars ≡ or_else (get k child.bind_vars) (get k b.bind_vars))
      (keeps : Distinct b.bind_vars → Distinct vars) where
    from_either :
        (k : Str) (v : Value)
        → get k vars ≡ some v
        → (get k child.bind_vars ≡ some v) ⊎ (get k b.bind_vars ≡ some v)
    from_either k v g = ground (arith, looks k)

    kept : (k : Str) (v : Value) → get k b.bind_vars ≡ some v → get k vars ≡ some v
    kept k v g = ground (arith, looks k, child-Disjoint k)

    owned : (k : Str) (v : Value) → get k child.bind_vars ≡ some v → get k vars ≡ some v
    owned k v g = ground (arith, looks k)

    advanced-IsFresh : IsFresh (advanced b child vars)
    advanced-IsFresh = record {
      bind_used = λ k v n g i. elim (from_either k v g) [
        | inl own ↦ hc.bind_used k v n own i
        | inr old ↦ omega (arith, h.bind_used k v n old i, up.bind_le)
      ];
      coll_used = λ k v n g i. elim (from_either k v g) [
        | inl own ↦ hc.coll_used k v n own i
        | inr old ↦ omega (arith, h.coll_used k v n old i, up.coll_le)
      ];
      cached = λ c name g. kept (64 ∷ name) (str c) (h.cached c name g);
      distinct = keeps h.distinct;
    }

    advanced-IsAbove :
        {low high : ℕ} → IsAbove low high b → IsAbove low high (advanced b child vars)
    advanced-IsAbove a = record {
      bind_le = omega (arith, a.bind_le, up.bind_le);
      coll_le = omega (arith, a.coll_le, up.coll_le);
      above = λ k v g. elim (from_either k v g) [
        | inr old ↦ a.above k v old
        | inl own ↦ elim (up.above k v own) [
          | inl (n, i, lt) ↦ inl (n, i, omega (arith, a.bind_le))
          | inr (n, i, lt) ↦ inr (n, i, omega (arith, a.coll_le))
        ]
      ];
    }

-- The child's own `finalize` fails and the parent is as it was, or the parent has the child's
-- counters and, beside its own bind variables, the child's.
module _ ⦃u : Unicode⦄ where
  pub absorb_failed :
      (b child child' : Builder) (e : Error)
      → finalize child ≡ (err e, child')
      → absorb_child child b ≡ (err e, b)
  unfolding absorb_child raise
  absorb_failed b child child' e f = rw f

  absorb_eq :
      (b child child' : Builder) (aql : Str) (vars : Dict Str Value)
      → finalize child ≡ (ok (aql, child'.bind_vars), child')
      → merge_binds child'.bind_vars b ≡ (ok tt, with_vars b vars)
      → absorb_child child b ≡ (ok aql, advanced b child' vars)
  unfolding absorb_child ◌>>=◌ pure take_counters modify
  absorb_eq b child child' aql vars f m = rw f (rw m)

  pub record Absorbed (b child child' : Builder) (aql : Str) (binds : Dict Str Value) : Type 0 where
    pub vars : Dict Str Value
    pub absorbed : absorb_child child b ≡ (ok aql, advanced b child' vars)
    pub owned : (k : Str) (v : Value) → get k binds ≡ some v → get k vars ≡ some v
    pub kept : (k : Str) (v : Value) → get k b.bind_vars ≡ some v → get k vars ≡ some v
    pub fresh : IsFresh (advanced b child' vars)
    pub above : (low high : ℕ) → IsAbove low high b → IsAbove low high (advanced b child' vars)

  pub absorb_succeeded :
      (b child child' : Builder) (aql : Str) (binds : Dict Str Value)
      → IsFresh b
      → IsFresh child'
      → IsAbove b.bind_counter b.coll_counter child'
      → finalize child ≡ (ok (aql, binds), child')
      → Absorbed b child child' aql binds
  absorb_succeeded b child child' aql binds h hc up f =
      let same = finalize-HoldsVars child child' aql binds f in
      let f' : finalize child ≡ (ok (aql, child'.bind_vars), child') = rw same at f in
      let (vars, merges, looks, keeps) =
        merge_binds-Merges child'.bind_vars b hc.distinct (child-Disjoint b child' h hc up) in
      record {
        vars = vars;
        absorbed = absorb_eq b child child' aql vars f' merges;
        owned = λ k v g. owned b child' h hc up vars looks keeps k v (rw same at g);
        kept = λ k v g. kept b child' h hc up vars looks keeps k v g;
        fresh = advanced-IsFresh b child' h hc up vars looks keeps;
        above = λ low high a. advanced-IsAbove b child' h hc up vars looks keeps a;
      }
