-- ===== src/Aql/Fresh/Mint.antt =====
-- `bind` and `bind_collection` of translate/builder.py never reuse a bind name.
use arango_sparql_py.Base.{ℕ, ◌+◌, ◌≡◌, refl, ◌∷◌, Option, none, some, inl, inr, ◌⊎◌}
use arango_sparql_py.Base.Tests.{Bool-cases}
use arango_sparql_py.Base.Eq.{nat_eq, list_eq}
use arango_sparql_py.Base.Str.{Str}
use arango_sparql_py.Errors.{Error, Result, ok, err, aql_emit_error}
use arango_sparql_py.Aql.Names.{matches_ident}
use arango_sparql_py.Aql.State.{Value, Builder, ◌>>=◌}
use arango_sparql_py.Aql.Mint.{
  Unicode, bind_name, coll_name, hint_suffix, bind, bind_new_collection, cached_or_new,
  bind_collection,
}
use arango_sparql_py.Aql.Keeps.{Keeps, keeps_rules}
use arango_sparql_py.Aql.Fresh.{
  bind_index, coll_index, bind_index-bind_name, coll_index-bind_name, IsFresh, IsAbove,
}
use arango_sparql_py.Aql.Fresh.Numbered.{
  with_bind, with_count, with_coll, with_coll_count, count-IsFresh, coll_count-IsFresh,
  bind-IsFresh, coll-IsFresh, count-IsAbove, coll_count-IsAbove, bind-IsAbove, coll-IsAbove,
}

pub Result-cases {ℓ} :
    {A : Type ℓ} (r : Result A) → ((a : A) × (r ≡ ok a)) ⊎ ((e : Error) × (r ≡ err e))
Result-cases (ok a) = inl (a, refl)
Result-cases (err e) = inr (e, refl)

pub bind-eq :
    (value : Value) (hint : Option Str) (b : Builder) (suffix : Str)
    → hint_suffix hint ≡ ok suffix
    → bind value hint b ≡ (
      ok (64 ∷ bind_name (b.bind_counter + 1) suffix),
      with_bind b (bind_name (b.bind_counter + 1) suffix) value,
    )
unfolding bind ◌>>=◌
bind-eq value hint b suffix s = rw s

pub bind-eq-err :
    (value : Value) (hint : Option Str) (b : Builder) (e : Error)
    → hint_suffix hint ≡ err e
    → bind value hint b ≡ (err e, with_count b)
unfolding bind ◌>>=◌
bind-eq-err value hint b e s = rw s

pub bind_new-eq :
    (c : Str) (b : Builder)
    → (bind_new_collection c b ≡ (ok (64 ∷ 64 ∷ coll_name (b.coll_counter + 1) c), with_coll b c))
      ⊎ (bind_new_collection c b ≡ (err aql_emit_error, with_coll_count b))
unfolding bind_new_collection ◌>>=◌
bind_new-eq c b = elim (Bool-cases (matches_ident (coll_name (b.coll_counter + 1) c))) [
  | inl good ↦ inl (rw good)
  | inr bad ↦ inr (rw bad)
]

-- `bind` and the registration of a collection keep a predicate that each of their four outcomes
-- keeps.
module _ (P : Builder → Type 0) where
  pub bind-Keeps :
      (value : Value) (hint : Option Str)
      → ((b : Builder) → P b → P (with_count b))
      → ((b : Builder) (name : Str)
          → bind_index name ≡ some (b.bind_counter + 1)
          → coll_index name ≡ none
          → P b
          → P (with_bind b name value))
      → Keeps P (bind value hint)
  bind-Keeps value hint counted stored = record {
    at = λ b h. elim (Result-cases (hint_suffix hint)) [
      | inl (suffix, s) ↦ rw (bind-eq value hint b suffix s) (
          stored b (bind_name (b.bind_counter + 1) suffix)
            (bind_index-bind_name (b.bind_counter + 1) hint suffix s)
            (coll_index-bind_name (b.bind_counter + 1) suffix) h)
      | inr (e, s) ↦ rw (bind-eq-err value hint b e s) (counted b h)
    ];
  }

  bind_new-Keeps :
      (c : Str)
      → ((b : Builder) → P b → P (with_coll_count b))
      → ((b : Builder) → P b → P (with_coll b c))
      → Keeps P (bind_new_collection c)
  bind_new-Keeps c counted stored = record {
    at = λ b h. elim (bind_new-eq c b) [ inl e ↦ rw e (stored b h) | inr e ↦ rw e (counted b h) ];
  }

  bind_collection-Keeps :
      ⦃u : Unicode⦄ → (c : Str) → Keeps P (bind_new_collection c) → Keeps P (bind_collection c)
  unfolding bind_collection
  bind_collection-Keeps ⦃u⦄ c new = search (keeps_rules, cached_or_new-Keeps)
    where
      cached_or_new-Keeps : (o : Option Str) → Keeps P (cached_or_new c o)
      cached_or_new-Keeps none = new
      cached_or_new-Keeps (some name) = search keeps_rules

module _ (value : Value) (hint : Option Str) where
  pub bind-Keeps-IsFresh : Keeps IsFresh (bind value hint)
  bind-Keeps-IsFresh =
      bind-Keeps IsFresh value hint count-IsFresh (λ b name i c h. bind-IsFresh b h name value i c)

  pub bind-Keeps-IsAbove : {low high : ℕ} → Keeps (IsAbove low high) (bind value hint)
  bind-Keeps-IsAbove {low} {high} =
      bind-Keeps (IsAbove low high) value hint count-IsAbove
        (λ b name i c h. bind-IsAbove b h name value i)

module _ ⦃u : Unicode⦄ (c : Str) where
  pub bind_collection-Keeps-IsFresh : Keeps IsFresh (bind_collection c)
  bind_collection-Keeps-IsFresh =
      bind_collection-Keeps IsFresh c
        (bind_new-Keeps IsFresh c coll_count-IsFresh (λ b h. coll-IsFresh b h c))

  pub bind_collection-Keeps-IsAbove : {low high : ℕ} → Keeps (IsAbove low high) (bind_collection c)
  bind_collection-Keeps-IsAbove {low} {high} =
      bind_collection-Keeps (IsAbove low high) c
        (bind_new-Keeps (IsAbove low high) c coll_count-IsAbove (λ b h. coll-IsAbove b h c))
