-- ===== src/Aql/Fresh/Seed.antt =====
-- `AqlQueryBuilder.__post_init__` of arango_sparql/translate/builder.py: a new builder has no name
-- that `bind` or `bind_collection` could make.
use arango_sparql_py.Base.{
  ◌≡◌, ◌≢◌, refl, Bool, false, ◌||◌, [], ◌∷◌, none, some, ap, subst, arith, inl, inr,
}
use arango_sparql_py.Base.Tests.{Bool-cases}
use arango_sparql_py.Base.Eq.{nat_eq, list_eq, eq_iff}
use arango_sparql_py.Base.Dict.{Dict, get, put, get-put}
use arango_sparql_py.Base.Str.{Str, codes, starts_with}
use arango_sparql_py.Errors.{ok}
use arango_sparql_py.Aql.State.{Value, Builder, empty_builder, seed, new_builder}
use arango_sparql_py.Base.Dict.Distinct.{Distinct, put-Distinct}
use arango_sparql_py.Aql.Fresh.{bind_index, coll_index, IsFresh}
use arango_sparql_py.Aql.Fresh.Child.{create_child-IsFresh, with_vars}
use arango_sparql_py.Aql.Finalize.{create_child}

pub empty-IsFresh : IsFresh empty_builder
unfolding create_child
empty-IsFresh = create_child-IsFresh empty_builder

abbrev is_reserved : Str → Bool
is_reserved k = starts_with k (codes "_") || starts_with k (codes "@")

-- A name that is not reserved carries no number.
plain_name : (k : Str) → is_reserved k ≡ false → (bind_index k ≡ none) × (coll_index k ≡ none)
unfolding bind_index coll_index
plain_name [] h = (refl, refl)
plain_name (c ∷ s) h = (ground arith, ground arith)

record IsPlain (b : Builder) : Type 0 where
  plain : (k : Str) (v : Value) → get k b.bind_vars ≡ some v → is_reserved k ≡ false
  same : b ≡ with_vars empty_builder b.bind_vars
  distinct : Distinct b.bind_vars

put-IsPlain :
    (k : Str) (v : Value) (b : Builder)
    → is_reserved k ≡ false
    → IsPlain b
    → IsPlain (with_vars b (put k v b.bind_vars))
put-IsPlain k v b free h = record {
  plain = λ j w g. ground (arith, get-put k j v b.bind_vars, eq_iff k j, h.plain j w);
  same = ap (λ x. with_vars x (put k v b.bind_vars)) h.same;
  distinct = put-Distinct k v b.bind_vars h.distinct;
}

seed-IsPlain :
    (params : Dict Str Value) (b b' : Builder) → IsPlain b → seed params b ≡ ok b' → IsPlain b'
unfolding seed
seed-IsPlain [] b b' h e = subst IsPlain (cc e) h
seed-IsPlain ((k, v) ∷ params) b b' h e = elim (Bool-cases (is_reserved k)) [
  | inl reserved ↦ absurd (cc (rw reserved at e))
  | inr free ↦
      seed-IsPlain params (with_vars b (put k v b.bind_vars)) b' (put-IsPlain k v b free h)
        (rw free at e)
]

empty-IsPlain : IsPlain empty_builder
unfolding get
empty-IsPlain = record { plain = λ k v g. absurd (cc g); same = refl; distinct = tt }

no_cache : (b : Builder) (c name : Str) → IsPlain b → get c b.coll_bind_by_name ≢ some name
unfolding get
no_cache b c name h g = cc (g, ap (λ x. get c x.coll_bind_by_name) h.same)

IsPlain→IsFresh : (b : Builder) → IsPlain b → IsFresh b
IsPlain→IsFresh b h = record {
  bind_used = λ k v n g i. absurd (cc ((plain_name k (h.plain k v g)).0, i));
  coll_used = λ k v n g i. absurd (cc ((plain_name k (h.plain k v g)).1, i));
  cached = λ c name g. absurd (no_cache b c name h g);
  distinct = h.distinct;
}

pub new_builder-IsFresh :
    (seed_params : Dict Str Value) (b : Builder) → new_builder seed_params ≡ ok b → IsFresh b
unfolding new_builder
new_builder-IsFresh seed_params b e =
    IsPlain→IsFresh b (seed-IsPlain seed_params empty_builder b empty-IsPlain e)
