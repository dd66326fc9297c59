-- ===== src/Aql/Fresh/Placeholders.antt =====
-- What the placeholders of `bind` and `bind_collection` of translate/builder.py stand for.
use arango_sparql_py.Aql.Mint.{valid_collection_name}
use arango_sparql_py.Aql.Fresh.Numbered.{with_coll, with_coll_count}
use arango_sparql_py.Aql.Fresh.Mint.{Result-cases, bind-eq, bind-eq-err, bind_new-eq}
use arango_sparql_py.Base.{◌+◌, ◌≡◌, refl, true, ◌∷◌, Option, none, some, inl, inr, sym, ◌∙◌, subst}
use arango_sparql_py.Base.Tests.{if◌then◌else◌, Bool-cases, Option-cases}
use arango_sparql_py.Base.Eq.{◌==◌, nat_eq, list_eq}
use arango_sparql_py.Base.Dict.{get, get-put, get-put_self}
use arango_sparql_py.Base.Str.{Str}
use arango_sparql_py.Errors.{Result, ok, err, aql_emit_error}
use arango_sparql_py.Aql.State.{Value, str, Builder, require, ◌>>=◌}
use arango_sparql_py.Aql.Mint.{
  Unicode, bind_name, coll_name, hint_suffix, bind, cached_or_new, bind_collection,
  placeholder_name, collection_bound_to,
}
use arango_sparql_py.Aql.Fresh.{bind_index-bind_name, IsFresh, next_bind-unused}

-- From a builder with a fresh name space, `bind` returns `@` and a name that was not in use; then
-- the name stands for the value, and every other name stands for what it stood for before.
pub bind_is_new :
    (value : Value) (hint : Option Str) (b b' : Builder) (placeholder : Str)
    → IsFresh b
    → bind value hint b ≡ (ok placeholder, b')
    → (name : Str) × (placeholder ≡ 64 ∷ name)
      × (get name b.bind_vars ≡ none)
      × ((k : Str) → get k b'.bind_vars ≡ (if name == k then some value else get k b.bind_vars))
bind_is_new value hint b b' placeholder h e = elim (Result-cases (hint_suffix hint)) [
  | inl (suffix, s) ↦
      let name = bind_name (b.bind_counter + 1) suffix in
      let fits = sym (bind-eq value hint b suffix s) ∙ e in
      (
        name,
        cc fits,
        next_bind-unused h name (bind_index-bind_name (b.bind_counter + 1) hint suffix s),
        λ k.
            subst
              (λ (r : Result Str × Builder).
                get k r.1.bind_vars ≡ (if name == k then some value else get k b.bind_vars))
              fits (get-put name k value b.bind_vars),
      )
  | inr (x, s) ↦ absurd (cc (sym (bind-eq-err value hint b x s) ∙ e))
]

placeholder_name-at : (s : Str) → placeholder_name (64 ∷ 64 ∷ s) ≡ some (64 ∷ s)
unfolding placeholder_name
placeholder_name-at s = refl

resolves :
    (c name : Str) (b : Builder)
    → get (64 ∷ name) b.bind_vars ≡ some (str c)
    → collection_bound_to (64 ∷ 64 ∷ name) b ≡ some c
unfolding collection_bound_to placeholder_name
resolves c name b h = rw h

-- What `bind_collection` does: it refuses the name, it finds the collection in the cache, or it
-- registers it under the next number, if the name that this makes is an identifier.
module _ ⦃u : Unicode⦄ (c : Str) (b : Builder) where
  pub data Outcome : Type 0 where
    refused : bind_collection c b ≡ (err aql_emit_error, b) → Outcome
    cached :
        (name : Str)
        → get c b.coll_bind_by_name ≡ some name
        → bind_collection c b ≡ (ok (64 ∷ 64 ∷ name), b)
        → Outcome
    added :
        valid_collection_name c ≡ true
        → bind_collection c b ≡ (ok (64 ∷ 64 ∷ coll_name (b.coll_counter + 1) c), with_coll b c)
        → Outcome
    unnamed : bind_collection c b ≡ (err aql_emit_error, with_coll_count b) → Outcome

  hit :
      (name : Str)
      → valid_collection_name c ≡ true
      → get c b.coll_bind_by_name ≡ some name
      → bind_collection c b ≡ (ok (64 ∷ 64 ∷ name), b)
  unfolding bind_collection ◌>>=◌ require
  hit name good found = rw good (rw (found, cached_or_new))

  pub outcome : Outcome
  unfolding bind_collection ◌>>=◌ require
  outcome = elim (Bool-cases (valid_collection_name c)) [
    | inr bad ↦ refused (rw bad)
    | inl good ↦ elim (Option-cases (get c b.coll_bind_by_name)) [
      | inr (name, found) ↦ cached name found (hit name good found)
      | inl new ↦ elim (bind_new-eq c b) [
        | inl e ↦ added good (rw good (rw (new, cached_or_new) e))
        | inr e ↦ unnamed (rw good (rw (new, cached_or_new) e))
      ]
    ]
  ]

resolves_at :
    (c name placeholder : Str) (b b' : Builder)
    → get (64 ∷ name) b.bind_vars ≡ some (str c)
    → ◌≡◌ {A = Result Str × Builder} (ok (64 ∷ 64 ∷ name), b) (ok placeholder, b')
    → collection_bound_to placeholder b' ≡ some c
resolves_at c name placeholder b b' g same =
    let named : placeholder ≡ 64 ∷ 64 ∷ name = cc same in
    let held : get (64 ∷ name) b'.bind_vars ≡ some (str c) =
      subst (λ (r : Result Str × Builder). get (64 ∷ name) r.1.bind_vars ≡ some (str c)) same g in
    rw named (resolves c name b' held)

-- The placeholder that `bind_collection` returns stands for the collection that was asked for, also
-- when it comes from the cache.
pub bind_collection_resolves :
    ⦃u : Unicode⦄
    → (c : Str) (b b' : Builder) (placeholder : Str) → IsFresh b
    → bind_collection c b ≡ (ok placeholder, b')
    → collection_bound_to placeholder b' ≡ some c
bind_collection_resolves ⦃u⦄ c b b' placeholder h e = elim (outcome c b) [
  | refused p ↦ absurd (cc (sym p ∙ e))
  | cached name g p ↦ resolves_at c name placeholder b b' (h.cached c name g) (sym p ∙ e)
  | added good p ↦
      resolves_at c (coll_name (b.coll_counter + 1) c) placeholder (with_coll b c) b'
        (get-put_self (64 ∷ coll_name (b.coll_counter + 1) c) (str c) b.bind_vars) (sym p ∙ e)
  | unnamed p ↦ absurd (cc (sym p ∙ e))
]
