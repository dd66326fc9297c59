-- ===== src/Translate/Resolver/Supertypes/Cycles.antt =====
-- The walk of `supertype_members` refuses a cycle of supertypes.
use arango_sparql_py.Base.{
  ℕ, zero, suc, ◌≡◌, true, false, some, List, [], ◌∷◌, sym, ◌∙◌, inl, inr, arith,
}
use arango_sparql_py.Base.Eq.{nat_eq, list_eq, eq_refl}
use arango_sparql_py.Base.Lists.{contains}
use arango_sparql_py.Base.Str.{Str}
use arango_sparql_py.Errors.{Error, Result, ok_same}
use arango_sparql_py.Translate.Rdf.{Rdf, term_eq}
use arango_sparql_py.Translate.Resolver.{resolve_class}
use arango_sparql_py.Translate.Resolver.Classes.{ResolvedClass, Config}
use arango_sparql_py.Translate.Resolver.Supertypes.{
  is_union, members, visit, depth, supertype_members,
}
use arango_sparql_py.Translate.Resolver.Supertypes.Exact.{visit-ok, visit-zero, grows, result}
use arango_sparql_py.Translate.Resolver.Supertypes.Steps.{each-took}
use Result.{ok, err}
use arango_sparql_py.Translate.Resolver.Supertypes.Total.{supertype_members-total}

module _ (r : Rdf) (g : r.Graph) (cfg : Config) where
  -- A member of a supertype's, or of a member's of it that is a supertype.
  pub data Leads : Str → Str → Type 0 where
    one :
        (k m : Str) (u : ResolvedClass)
        → (resolve_class r g cfg k).1 ≡ ok u
        → is_union u ≡ true
        → contains m (members r g k) ≡ true
        → Leads k m
    more :
        (k m j : Str) (u : ResolvedClass)
        → (resolve_class r g cfg k).1 ≡ ok u
        → is_union u ≡ true
        → contains m (members r g k) ≡ true
        → Leads m j
        → Leads k j

  -- a visit that succeeds visits everything that the class leads to, with the class on the path
  visit-member :
      (n : ℕ) (path : List Str) (k m : Str) (a b : List ResolvedClass) (u : ResolvedClass)
      → visit r g cfg (suc n) path k a ≡ some (ok b)
      → (resolve_class r g cfg k).1 ≡ ok u
      → is_union u ≡ true
      → contains m (members r g k) ≡ true
      → (x : List ResolvedClass) × (y : List ResolvedClass) × (visit r g cfg n (k ∷ path) m x
          ≡ some (ok y))
  visit-member n path k m a b u e resolved union hm =
      let (fresh, (d, found, how)) = visit-ok r g cfg n path k a b e in
      let same = ok_same d u (sym found ∙ resolved) in
      elim how [
        | inl (concrete, _) ↦ absurd (cc (union, concrete, same))
        | inr (_, all) ↦
            let (x, y, took, _) =
              each-took k (visit r g cfg n (k ∷ path)) (members r g k)
                (λ j v w. grows r g cfg k n (k ∷ path) j v w) a b all m hm in
            (x, y, took)
      ]

  off_path :
      (n : ℕ) (path : List Str) (k : Str) (a b : List ResolvedClass)
      → visit r g cfg n path k a ≡ some (ok b)
      → contains k path ≡ false
  off_path zero path k a b e = absurd (visit-zero r g cfg path k a b e)
  off_path (suc n) path k a b e = (visit-ok r g cfg n path k a b e).0

  visit-Leads :
      (n : ℕ) (path : List Str) (k j : Str) (a b : List ResolvedClass)
      → visit r g cfg n path k a ≡ some (ok b)
      → Leads k j
      → (i : ℕ) × (way : List Str) × (x : List ResolvedClass) × (y : List ResolvedClass) × (visit r
            g cfg i way j x
          ≡ some (ok y))
        × ((s : Str) → contains s (k ∷ path) ≡ true → contains s way ≡ true)
  visit-Leads zero path k j a b e l = absurd (visit-zero r g cfg path k a b e)
  visit-Leads (suc n) path k j a b e (one _ _ u resolved union hm) =
      let (x, y, took) = visit-member n path k j a b u e resolved union hm in
      (n, k ∷ path, x, y, took, λ s h. h)
  visit-Leads (suc n) path k j a b e (more _ m _ u resolved union hm l) =
      let (x, y, took) = visit-member n path k m a b u e resolved union hm in
      let (i, way, v, w, last, on) = visit-Leads n (k ∷ path) m j x y took l in
      (i, way, v, w, last, λ s h. on s (ground (arith, h)))

  no_cycle :
      (n : ℕ) (path : List Str) (j : Str) (a b : List ResolvedClass)
      → visit r g cfg n path j a ≡ some (ok b)
      → Leads j j
      → ⊥
  no_cycle n path j a b e l =
      let (i, way, x, y, took, on) = visit-Leads n path j j a b e l in
      cc (off_path i way j x y took, on j (ground (arith, eq_refl j)))

  refused :
      (k : Str) (q : Result (List ResolvedClass))
      → ((out : List ResolvedClass) → supertype_members r g cfg k ≡ some (ok out) → ⊥)
      → supertype_members r g cfg k ≡ some q
      → (e : Error) × (supertype_members r g cfg k ≡ some (err e))
  refused k (ok out) never h = absurd (never out h)
  refused k (err e) never h = (e, h)

  -- A supertype that leads to a class which leads back to itself is refused with an error, instead of
  -- being walked for ever or read without the classes of the cycle.
  pub cycle_is_refused :
      (k j : Str)
      → Leads k j
      → Leads j j
      → (e : Error) × (supertype_members r g cfg k ≡ some (err e))
  cycle_is_refused k j l back =
      let (q, h) = supertype_members-total r g cfg k in
      refused k q
        (λ out e.
          let (i, way, x, y, took, _) =
            visit-Leads (depth r g) [] k j [] out (result r g cfg k out e) l in
          no_cycle i way j x y took back)
        h
