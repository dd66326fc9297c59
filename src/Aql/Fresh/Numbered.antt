-- ===== src/Aql/Fresh/Numbered.antt =====
-- The builder of translate/builder.py after a bind name with the next number was minted.
use arango_sparql_py.Base.{ℕ, ◌+◌, ◌≡◌, ◌∷◌, none, some, arith, inl, inr, subst}
use arango_sparql_py.Base.Tests.{Bool-cases}
use arango_sparql_py.Base.Eq.{◌==◌, nat_eq, list_eq, eq_iff}
use arango_sparql_py.Base.Dict.{put, get-put}
use arango_sparql_py.Base.Str.{Str}
use arango_sparql_py.Aql.State.{Value, str, Builder}
use arango_sparql_py.Aql.Mint.{coll_name}
use arango_sparql_py.Base.Dict.Distinct.{put-Distinct}
use arango_sparql_py.Aql.Fresh.{
  bind_index, coll_index, coll_index-coll_name, bind_index-coll_name, IsFresh, IsAbove,
  next_bind-unused, next_coll-unused,
}

-- the builder after a value was stored under the next number
abbrev pub with_bind : Builder → Str → Value → Builder
with_bind b name value = record b {
  bind_counter = b.bind_counter + 1;
  bind_vars = put name value b.bind_vars;
}

abbrev pub with_count : Builder → Builder
with_count b = record b { bind_counter = b.bind_counter + 1 }

abbrev pub with_coll : Builder → Str → Builder
with_coll b c =
    let name = coll_name (b.coll_counter + 1) c in
    record b {
      coll_counter = b.coll_counter + 1;
      coll_bind_by_name = put c name b.coll_bind_by_name;
      bind_vars = put (64 ∷ name) (str c) b.bind_vars;
    }

abbrev pub with_coll_count : Builder → Builder
with_coll_count b = record b { coll_counter = b.coll_counter + 1 }

module _ (b : Builder) (h : IsFresh b) where
  pub count-IsFresh : IsFresh (with_count b)
  count-IsFresh = record {
    bind_used = λ k v n g i. omega (arith, h.bind_used k v n g i);
    coll_used = h.coll_used;
    cached = h.cached;
    distinct = h.distinct;
  }

  pub coll_count-IsFresh : IsFresh (with_coll_count b)
  coll_count-IsFresh = record {
    bind_used = h.bind_used;
    coll_used = λ k v n g i. omega (arith, h.coll_used k v n g i);
    cached = h.cached;
    distinct = h.distinct;
  }

  -- a name that carries the next number, and is no collection's
  pub bind-IsFresh :
      (name : Str) (value : Value)
      → bind_index name ≡ some (b.bind_counter + 1)
      → coll_index name ≡ none
      → IsFresh (with_bind b name value)
  bind-IsFresh name value i c = record {
    bind_used = λ k v n g j.
        ground (arith, get-put name k value b.bind_vars, eq_iff name k, h.bind_used k v n);
    coll_used = λ k v n g j.
        ground (arith, get-put name k value b.bind_vars, eq_iff name k, h.coll_used k v n);
    cached = λ x n g. ground (
      arith,
      get-put name (64 ∷ n) value b.bind_vars,
      eq_iff name (64 ∷ n),
      h.cached x n,
      next_bind-unused h name i,
    );
    distinct = put-Distinct name value b.bind_vars h.distinct;
  }

  pub coll-IsFresh : (c : Str) → IsFresh (with_coll b c)
  coll-IsFresh c =
      let name = coll_name (b.coll_counter + 1) c in
      record {
        bind_used = λ k v n g j. ground (
          arith,
          get-put (64 ∷ name) k (str c) b.bind_vars,
          eq_iff (64 ∷ name) k,
          h.bind_used k v n,
          bind_index-coll_name (b.coll_counter + 1) c,
        );
        coll_used = λ k v n g j. ground (
          arith,
          get-put (64 ∷ name) k (str c) b.bind_vars,
          eq_iff (64 ∷ name) k,
          h.coll_used k v n,
          coll_index-coll_name (b.coll_counter + 1) c,
        );
        cached = λ x n g. ground (
          arith,
          get-put c x name b.coll_bind_by_name,
          get-put (64 ∷ name) (64 ∷ n) (str c) b.bind_vars,
          eq_iff c x,
          eq_iff name n,
          h.cached x n,
          next_coll-unused h (64 ∷ name) (coll_index-coll_name (b.coll_counter + 1) c),
        );
        distinct = put-Distinct (64 ∷ name) (str c) b.bind_vars h.distinct;
      }

module _ {low high : ℕ} (b : Builder) (h : IsAbove low high b) where
  pub count-IsAbove : IsAbove low high (with_count b)
  count-IsAbove = record {
    bind_le = omega (arith, h.bind_le);
    coll_le = h.coll_le;
    above = h.above;
  }

  pub coll_count-IsAbove : IsAbove low high (with_coll_count b)
  coll_count-IsAbove = record {
    bind_le = h.bind_le;
    coll_le = omega (arith, h.coll_le);
    above = h.above;
  }

  pub bind-IsAbove :
      (name : Str) (value : Value)
      → bind_index name ≡ some (b.bind_counter + 1)
      → IsAbove low high (with_bind b name value)
  bind-IsAbove name value i = record {
    bind_le = omega (arith, h.bind_le);
    coll_le = h.coll_le;
    above = λ k v g. elim (Bool-cases (name == k)) [
      | inl same ↦ inl (
        b.bind_counter + 1,
        subst (λ x. bind_index x ≡ some (b.bind_counter + 1)) ((eq_iff name k).0 same) i,
        omega (arith, h.bind_le),
      )
      | inr differs ↦ h.above k v (ground (arith, get-put name k value b.bind_vars))
    ];
  }

  pub coll-IsAbove : (c : Str) → IsAbove low high (with_coll b c)
  coll-IsAbove c =
      let name = coll_name (b.coll_counter + 1) c in
      record {
        bind_le = h.bind_le;
        coll_le = omega (arith, h.coll_le);
        above = λ k v g. elim (Bool-cases ((64 ∷ name) == k)) [
          | inl same ↦ inr (
            b.coll_counter + 1,
            subst (λ x. coll_index x ≡ some (b.coll_counter + 1)) ((eq_iff (64 ∷ name) k).0 same)
                (coll_index-coll_name (b.coll_counter + 1) c),
            omega (arith, h.coll_le),
          )
          | inr differs ↦ h.above k v (ground (arith, get-put (64 ∷ name) k (str c) b.bind_vars))
        ];
      }
