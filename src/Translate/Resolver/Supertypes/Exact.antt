-- ===== src/Translate/Resolver/Supertypes/Exact.antt =====
-- What `supertype_members` returns: the concrete classes under a supertype, each once.
use arango_sparql_py.Base.{
  ℕ, zero, suc, ◌≡◌, true, false, some, List, [], ◌∷◌, ◌++◌, refl, sym, ap, ◌∙◌, subst, map, ◌⊎◌,
  inl, inr,
}
use arango_sparql_py.Base.Tests.{Bool-cases, if◌then◌else◌}
use arango_sparql_py.Base.Eq.{nat_eq, list_eq}
use arango_sparql_py.Base.Lists.{contains, All, all_distinct}
use arango_sparql_py.Base.Str.{Str}
use arango_sparql_py.Errors.{Result, ok_same}
use arango_sparql_py.Translate.Rdf.{Rdf}
use arango_sparql_py.Translate.Resolver.{resolve_class, physical_string, has_type}
use arango_sparql_py.Translate.Resolver.Classes.{ResolvedClass, Config}
use arango_sparql_py.Translate.Resolver.Supertypes.{
  has_class, is_union, each, visit_class, members, visit, depth, supertype_members,
}
use Result.{ok}
use arango_sparql_py.Translate.Resolver.Supertypes.Steps.{
  each-keeps, each-took, Leaf, guarded-ok, visit_class-ok, kept-class, leaf-has, Once, kept-once,
  kept-all, declared_class-iri,
}

module _ (r : Rdf) (g : r.Graph) (cfg : Config) where
  -- The class that an IRI resolves to has that IRI.
  class_iri-resolve_class :
      (k : Str) (c : ResolvedClass) → (resolve_class r g cfg k).1 ≡ ok c → c.class_iri ≡ k
  unfolding resolve_class
  class_iri-resolve_class k c e = elim (Bool-cases (has_type r g k "Class")) [
    | inl declared ↦
        declared_class-iri (physical_string r g k) cfg k (physical_string r g k "mappingStyle") c
          (rw declared at e)
    | inr undeclared ↦ elim (Bool-cases cfg.permissive) [
      | inl lax ↦
          ap (λ (x : ResolvedClass). x.class_iri) (sym (ok_same _ c (rw (undeclared, lax) at e)))
      | inr strict ↦ absurd (cc (rw (undeclared, strict) at e))
    ]
  ]

  -- `c` is a concrete class that `k` stands for: itself, or one of a member of the supertype.
  pub data StandsFor : Str → ResolvedClass → Type 0 where
    itself :
        (k : Str) (c : ResolvedClass)
        → (resolve_class r g cfg k).1 ≡ ok c
        → is_union c ≡ false
        → StandsFor k c
    member :
        (k m : Str) (u c : ResolvedClass)
        → (resolve_class r g cfg k).1 ≡ ok u
        → is_union u ≡ true
        → contains m (members r g k) ≡ true
        → StandsFor m c
        → StandsFor k c

  -- how a visit succeeds
  pub visit-ok :
      (n : ℕ) (path : List Str) (k : Str) (a b : List ResolvedClass)
      → visit r g cfg (suc n) path k a ≡ some (ok b)
      → (contains k path ≡ false)
        × ((c : ResolvedClass) × ((resolve_class r g cfg k).1 ≡ ok c)
            × (Leaf c a b
                ⊎ ((is_union c ≡ true)
                    × (each (visit r g cfg n (k ∷ path)) (members r g k) a ≡ some (ok b)))))
  unfolding visit
  visit-ok n path k a b e =
      let (fresh, more) =
        guarded-ok (contains k path)
          (visit_class (visit r g cfg n (k ∷ path)) path (members r g k) a
            (resolve_class r g cfg k).1)
          b e in
      (
        fresh,
        visit_class-ok (visit r g cfg n (k ∷ path)) path (members r g k) a b
            (resolve_class r g cfg k).1 more,
      )

  pub visit-zero :
      (path : List Str) (k : Str) (a b : List ResolvedClass)
      → visit r g cfg zero path k a ≡ some (ok b)
      → ⊥
  unfolding visit
  visit-zero path k a b e = cc e

  pub grows :
      (i : Str) (n : ℕ) (path : List Str) (k : Str) (a b : List ResolvedClass)
      → visit r g cfg n path k a ≡ some (ok b)
      → has_class i a ≡ true
      → has_class i b ≡ true
  grows i zero path k a b e h = absurd (visit-zero path k a b e)
  grows i (suc n) path k a b e h =
      let (fresh, (c, _, how)) = visit-ok n path k a b e in
      elim how [
        | inl (_, same) ↦ subst (λ x. has_class i x ≡ true) (sym same) (kept-class i c a h)
        | inr (_, all) ↦
            each-keeps (λ x. has_class i x ≡ true) (visit r g cfg n (k ∷ path)) (members r g k)
              (λ m hm x y. grows i n (k ∷ path) m x y) a b all h
      ]

  sound :
      (root : Str) (n : ℕ) (path : List Str) (k : Str) (a b : List ResolvedClass)
      → visit r g cfg n path k a ≡ some (ok b)
      → ((c : ResolvedClass) → StandsFor k c → StandsFor root c)
      → All (StandsFor root) a
      → All (StandsFor root) b
  sound root zero path k a b e up h = absurd (visit-zero path k a b e)
  sound root (suc n) path k a b e up h =
      let (fresh, (c, resolved, how)) = visit-ok n path k a b e in
      elim how [
        | inl (concrete, same) ↦
            subst (All (StandsFor root)) (sym same)
              (kept-all (StandsFor root) c a (up c (itself k c resolved concrete)) h)
        | inr (union, all) ↦
            each-keeps (All (StandsFor root)) (visit r g cfg n (k ∷ path)) (members r g k)
              (λ m hm x y q.
                sound root n (k ∷ path) m x y q (λ d s. up d (member k m c d resolved union hm s)))
              a b all h
      ]

  complete :
      (n : ℕ) (path : List Str) (k : Str) (a b : List ResolvedClass)
      → visit r g cfg n path k a ≡ some (ok b)
      → (c : ResolvedClass) → StandsFor k c
      → has_class c.class_iri b ≡ true
  complete zero path k a b e c s = absurd (visit-zero path k a b e)
  complete (suc n) path k a b e c (itself _ _ resolved concrete) =
      let (fresh, (d, found, how)) = visit-ok n path k a b e in
      let same = ok_same d c (sym found ∙ resolved) in
      elim how [
        | inl (_, last) ↦
            subst (λ x. has_class c.class_iri x ≡ true) (sym last)
              (subst
                (λ (x : ResolvedClass).
                  has_class c.class_iri (if has_class x.class_iri a then a else a ++ x ∷ []) ≡ true)
                (sym same) (leaf-has c a))
        | inr (union, all) ↦ absurd (cc (union, concrete, same))
      ]
  complete (suc n) path k a b e c (member _ m u _ resolved union hm s) =
      let (fresh, (d, found, how)) = visit-ok n path k a b e in
      let same = ok_same d u (sym found ∙ resolved) in
      elim how [
        | inl (concrete, _) ↦ absurd (cc (union, concrete, same))
        | inr (_, all) ↦
            let (x, y, took, stays) =
              each-took c.class_iri (visit r g cfg n (k ∷ path)) (members r g k)
                (λ j v w. grows c.class_iri n (k ∷ path) j v w) a b all m hm in
            stays (complete n (k ∷ path) m x y took c s)
      ]

  once :
      (n : ℕ) (path : List Str) (k : Str) (a b : List ResolvedClass)
      → visit r g cfg n path k a ≡ some (ok b)
      → Once a
      → Once b
  once zero path k a b e h = absurd (visit-zero path k a b e)
  once (suc n) path k a b e h =
      let (fresh, (c, _, how)) = visit-ok n path k a b e in
      elim how [
        | inl (_, same) ↦ subst Once (sym same) (kept-once c a h)
        | inr (_, all) ↦
            each-keeps Once (visit r g cfg n (k ∷ path)) (members r g k)
              (λ m hm x y. once n (k ∷ path) m x y) a b all h
      ]

  pub result :
      (k : Str) (out : List ResolvedClass)
      → supertype_members r g cfg k ≡ some (ok out)
      → visit r g cfg (depth r g) [] k [] ≡ some (ok out)
  unfolding supertype_members
  result k out e = e

  abbrev pub IsExact : Str → List ResolvedClass → Type 0
  IsExact k out =
      All (StandsFor k) out
      × ((c : ResolvedClass) → StandsFor k c → has_class c.class_iri out ≡ true)
      × (all_distinct (map (λ (c : ResolvedClass). c.class_iri) out) ≡ true)

  pub members-exact :
      (k : Str) (out : List ResolvedClass)
      → supertype_members r g cfg k ≡ some (ok out)
      → IsExact k out
  unfolding Once
  members-exact k out e = (
    sound k (depth r g) [] k [] out (result k out e) (λ c s. s) tt,
    (λ c s. complete (depth r g) [] k [] out (result k out e) c s),
    once (depth r g) [] k [] out (result k out e) refl,
  )
