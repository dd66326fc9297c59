-- ===== src/Translate/Resolver/Supertypes/Total.antt =====
-- The walk of `supertype_members` ends.
use arango_sparql_py.Base.{
  ℕ, zero, suc, ◌+◌, ◌≤◌, ◌≡◌, Bool, true, false, none, some, List, [], ◌∷◌, refl, sym, ap, ◌∙◌,
  inl, inr, ◌⊎◌, arith,
}
use arango_sparql_py.Base.Tests.{Bool-cases}
use arango_sparql_py.Base.Eq.{nat_eq, list_eq}
use arango_sparql_py.Base.Lists.{contains, length, All, all_distinct}
use arango_sparql_py.Base.Str.{Str}
use arango_sparql_py.Errors.{Error, Result, ok_same}
use arango_sparql_py.Translate.{Term}
use arango_sparql_py.Translate.Rdf.{Rdf, term_eq}
use arango_sparql_py.Translate.Resolver.{resolve_class, has_type, a_type, owl}
use arango_sparql_py.Translate.Resolver.Classes.{ResolvedClass, Config}
use arango_sparql_py.Translate.Resolver.Supertypes.{
  Walk, and_then, is_union, each, leaf, walk_members, visit_class, members, visit, depth,
  supertype_members,
}
use arango_sparql_py.Translate.Resolver.Supertypes.Exact.{IsExact, members-exact}
use arango_sparql_py.Base.Pigeon.{length-le-of_distinct}
use Error.{schema_error}
use Result.{ok, err}
use Term.{iri}

each-total :
    (f : Str → List ResolvedClass → Walk) (ms : List Str)
    → ((m : Str) (a : List ResolvedClass) → (q : Result (List ResolvedClass)) × (f m a ≡ some q))
    → (a : List ResolvedClass) → (q : Result (List ResolvedClass)) × (each f ms a ≡ some q)
unfolding each
each-total f [] t a = (ok a, refl)
each-total f (m ∷ ms) t a = and_then-total (f m a) (each f ms) (t m a) (each-total f ms t)
  where
    and_then-total :
        (w : Walk) (h : List ResolvedClass → Walk)
        → (q : Result (List ResolvedClass)) × (w ≡ some q)
        → ((b : List ResolvedClass) → (q : Result (List ResolvedClass)) × (h b ≡ some q))
        → (q : Result (List ResolvedClass)) × (and_then w h ≡ some q)
    and_then-total none h (q, e) more = absurd (cc e)
    and_then-total (some (err x)) h p more = (err x, refl)
    and_then-total (some (ok b)) h p more = more b

distinct-cons :
    (k : Str) (ks : List Str)
    → contains k ks ≡ false
    → all_distinct ks ≡ true
    → all_distinct (k ∷ ks) ≡ true
distinct-cons k ks c h = ground arith

guarded-total :
    (t : Bool) (w : Walk)
    → (t ≡ false → (q : Result (List ResolvedClass)) × (w ≡ some q))
    → (q : Result (List ResolvedClass)) × (elim t as (λ _. Walk) [
      | true ↦ some (err schema_error)
      | false ↦ w
    ]
        ≡ some q)
guarded-total true w more = (err schema_error, refl)
guarded-total false w more = more refl

leaf-total :
    (path : List Str) (c : ResolvedClass) (out : List ResolvedClass)
    → (q : Result (List ResolvedClass)) × (leaf path c out ≡ some q)
leaf-total [] c out = (err schema_error, refl)
leaf-total (k ∷ path) c out = (ok _, refl)

module _ (f : Str → List ResolvedClass → Walk) (out : List ResolvedClass) where
  walk_members-total :
      (ms : List Str)
      → ((m : Str) (a : List ResolvedClass) → (q : Result (List ResolvedClass)) × (f m a ≡ some q))
      → (q : Result (List ResolvedClass)) × (walk_members f ms out ≡ some q)
  walk_members-total [] t = (err schema_error, refl)
  walk_members-total (m ∷ ms) t = each-total f (m ∷ ms) t out

  visit_class-total :
      (path ms : List Str) (x : Result ResolvedClass)
      → ((c : ResolvedClass)
          → x ≡ ok c
          → is_union c ≡ true
          → (m : Str) (a : List ResolvedClass)
          → (q : Result (List ResolvedClass)) × (f m a ≡ some q))
      → (q : Result (List ResolvedClass)) × (visit_class f path ms out x ≡ some q)
  visit_class-total path ms (err e) t = (err e, refl)
  visit_class-total path ms (ok c) t = elim (Bool-cases (is_union c)) [
    | inl union ↦ rw union (walk_members-total ms (t c refl union))
    | inr concrete ↦ rw concrete (leaf-total path c out)
  ]

module _ (r : Rdf) (g : r.Graph) (cfg : Config) where
  union-declared :
      (k : Str) (u : ResolvedClass)
      → (resolve_class r g cfg k).1 ≡ ok u
      → is_union u ≡ true
      → has_type r g k "Class" ≡ true
  unfolding resolve_class
  union-declared k u e h = elim (Bool-cases (has_type r g k "Class")) [
    | inl declared ↦ declared
    | inr undeclared ↦ elim (Bool-cases cfg.permissive) [
      | inl lax ↦ absurd (cc (h, ap is_union (sym (ok_same _ u (rw (undeclared, lax) at e)))))
      | inr strict ↦ absurd (cc (rw (undeclared, strict) at e))
    ]
  ]

  abbrev classes : List Term
  classes = r.subjects a_type (owl "Class") g

  record IsPath (path : List Str) : Type 0 where
    once : all_distinct path ≡ true
    declared : All (λ k. contains (iri k) classes ≡ true) path

  IsPath-cons :
      (k : Str) (path : List Str) (u : ResolvedClass)
      → IsPath path
      → contains k path ≡ false
      → (resolve_class r g cfg k).1 ≡ ok u
      → is_union u ≡ true
      → IsPath (k ∷ path)
  IsPath-cons k path u p fresh e h = record {
    once = distinct-cons k path fresh p.once;
    declared = (r.subjects_all (iri k) a_type (owl "Class") g ∙ union-declared k u e h, p.declared);
  }

  visit-total :
      (n : ℕ) (path : List Str) (k : Str) (out : List ResolvedClass)
      → depth r g ≤ n + length path
      → IsPath path
      → (q : Result (List ResolvedClass)) × (visit r g cfg n path k out ≡ some q)
  unfolding visit
  visit-total zero path k out enough p = absurd (
      omega (
        arith,
        length-le-of_distinct (λ (s : Str). iri s) path classes (λ x y e. cc) p.once p.declared,
      ))
  visit-total (suc n) path k out enough p = guarded-total (contains k path) _ (λ fresh.
      visit_class-total (visit r g cfg n (k ∷ path)) out path (members r g k)
        (resolve_class r g cfg k).1
        (λ u e h m a.
          visit-total n (k ∷ path) m a (omega arith) (IsPath-cons k path u p fresh e h)))

  pub supertype_members-total :
      (k : Str) → (q : Result (List ResolvedClass)) × (supertype_members r g cfg k ≡ some q)
  unfolding supertype_members
  supertype_members-total k =
      visit-total (depth r g) [] k [] (omega arith) (record { once = refl; declared = tt })

  answered :
      (k : Str) (q : Result (List ResolvedClass))
      → supertype_members r g cfg k ≡ some q
      → ((e : Error) × (supertype_members r g cfg k ≡ some (err e)))
        ⊎ ((out : List ResolvedClass) × (supertype_members r g cfg k ≡ some (ok out))
            × IsExact r g cfg k out)
  answered k (err e) h = inl (e, h)
  answered k (ok out) h = inr (out, h, members-exact r g cfg k out h)

  -- Whatever the ontology says of subclasses, the walk of a supertype ends: with an error, or with
  -- classes that are exactly the concrete ones that the supertype stands for, each once.
  pub supertype_members-exact :
      (k : Str)
      → ((e : Error) × (supertype_members r g cfg k ≡ some (err e)))
        ⊎ ((out : List ResolvedClass) × (supertype_members r g cfg k ≡ some (ok out))
            × IsExact r g cfg k out)
  supertype_members-exact k = let (q, h) = supertype_members-total k in answered k q h
