-- ===== src/Translate/Resolver/Supertypes/Steps.antt =====
-- The steps of `supertype_members` in arango_sparql/translate/resolver.py: how each succeeds and what it
-- keeps.
use arango_sparql_py.Base.{
  ◌≡◌, Bool, true, false, ◌||◌, Option, none, some, List, [], ◌∷◌, ◌++◌, refl, sym, ap, ◌∙◌, subst,
  map, String, ◌⊎◌, inl, inr, arith,
}
use mathlib.Core.List.{map-append}
use arango_sparql_py.Base.Tests.{Bool-cases, if◌then◌else◌}
use arango_sparql_py.Base.Eq.{◌==◌, nat_eq, list_eq, eq_iff, eq_refl}
use arango_sparql_py.Base.Lists.{contains, any-append, All, All-append, all_distinct}
use arango_sparql_py.Base.Str.{Str}
use arango_sparql_py.Errors.{Error, Result, ok_same}
use arango_sparql_py.Translate.Resolver.{
  labelled, type_tested, is_label_style, declared_class, styled_class, untested_class,
  unnamed_collection, known_style, is_style,
}
use arango_sparql_py.Translate.Resolver.Classes.{ResolvedClass, Config}
use arango_sparql_py.Translate.Resolver.Supertypes.{
  Walk, and_then, has_class, is_union, each, leaf, walk_members, visit_class,
}
use Error.{schema_error}
use Result.{ok, err}

-- a step that succeeds, in a chain that does
and_then-ok :
    (w : Walk) (f : List ResolvedClass → Walk) (out : List ResolvedClass)
    → and_then w f ≡ some (ok out)
    → (mid : List ResolvedClass) × (w ≡ some (ok mid)) × (f mid ≡ some (ok out))
and_then-ok none f out e = absurd (cc e)
and_then-ok (some (err x)) f out e = absurd (cc e)
and_then-ok (some (ok mid)) f out e = (mid, refl, e)

-- What every step keeps, the walk of a list of steps keeps.
pub each-keeps {ℓ} :
    (P : List ResolvedClass → Type ℓ) (f : Str → List ResolvedClass → Walk) (ms : List Str)
    → ((m : Str)
        → contains m ms ≡ true
        → (a b : List ResolvedClass) → f m a ≡ some (ok b)
        → P a
        → P b)
    → (a b : List ResolvedClass) → each f ms a ≡ some (ok b)
    → P a
    → P b
unfolding each
each-keeps P f [] keep a b e p = subst P (cc) p
each-keeps P f (m ∷ ms) keep a b e p =
    let (mid, first, second) = and_then-ok (f m a) (each f ms) b e in
    each-keeps P f ms (λ j h. keep j (ground (arith, h))) mid b second
      (keep m (ground (arith, eq_refl m)) a mid first p)

-- Every step of a walk that succeeds was taken, and what it adds stays.
pub each-took :
    (i : Str) (f : Str → List ResolvedClass → Walk) (ms : List Str)
    → ((m : Str) (a b : List ResolvedClass)
        → f m a ≡ some (ok b)
        → has_class i a ≡ true
        → has_class i b ≡ true)
    → (a b : List ResolvedClass) → each f ms a ≡ some (ok b)
    → (m : Str) → contains m ms ≡ true
    → (x : List ResolvedClass) × (y : List ResolvedClass) × (f m x ≡ some (ok y))
      × (has_class i y ≡ true → has_class i b ≡ true)
unfolding each
each-took i f [] grow a b e m h = absurd (cc h)
each-took i f (j ∷ ms) grow a b e m h =
    let (mid, first, second) = and_then-ok (f j a) (each f ms) b e in
    elim (Bool-cases (j == m)) [
      | inl same ↦ (
        a,
        mid,
        subst (λ x. f x a ≡ some (ok mid)) ((eq_iff j m).0 same) first,
        each-keeps (λ x. has_class i x ≡ true) f ms (λ k hk. grow k) mid b second,
      )
      | inr other ↦ each-took i f ms grow mid b second m (ground (arith, other, h))
    ]

-- how a step of the walk succeeds: at a concrete class, or through the members of a supertype
abbrev pub Leaf : ResolvedClass → List ResolvedClass → List ResolvedClass → Type 0
Leaf c a b = (is_union c ≡ false) × (b ≡ (if has_class c.class_iri a then a else a ++ c ∷ []))

pub guarded-ok :
    (t : Bool) (w : Walk) (b : List ResolvedClass)
    → elim t as (λ _. Walk) [ true ↦ some (err schema_error) | false ↦ w ] ≡ some (ok b)
    → (t ≡ false) × (w ≡ some (ok b))
guarded-ok true w b e = absurd (cc e)
guarded-ok false w b e = (refl, e)

pub visit_class-ok :
    (f : Str → List ResolvedClass → Walk) (path ms : List Str) (a b : List ResolvedClass)
    (q : Result ResolvedClass)
    → visit_class f path ms a q ≡ some (ok b)
    → (c : ResolvedClass) × (q ≡ ok c)
      × (Leaf c a b ⊎ ((is_union c ≡ true) × (each f ms a ≡ some (ok b))))
visit_class-ok f path ms a b (err x) e = absurd (cc e)
visit_class-ok f path ms a b (ok c) e = elim (Bool-cases (is_union c)) [
  | inl union ↦ (c, refl, inr (union, all_of ms (rw union at e)))
  | inr concrete ↦ (c, refl, inl (concrete, leaf-ok path c (rw concrete at e)))
]
  where
    all_of : (ns : List Str) → walk_members f ns a ≡ some (ok b) → each f ns a ≡ some (ok b)
    all_of [] h = absurd (cc h)
    all_of (n ∷ ns) h = h

    leaf-ok :
        (p : List Str) (d : ResolvedClass)
        → leaf p d a ≡ some (ok b)
        → b ≡ (if has_class d.class_iri a then a else a ++ d ∷ [])
    leaf-ok [] d h = absurd (cc h)
    leaf-ok (x ∷ p) d h = cc h

pub kept-class :
    (i : Str) (c : ResolvedClass) (a : List ResolvedClass)
    → has_class i a ≡ true
    → has_class i (if has_class c.class_iri a then a else a ++ c ∷ []) ≡ true
kept-class i c a h = ground (arith, any-append (λ (x : ResolvedClass). x.class_iri == i) a (c ∷ []))

pub leaf-has :
    (c : ResolvedClass) (a : List ResolvedClass)
    → has_class c.class_iri (if has_class c.class_iri a then a else a ++ c ∷ []) ≡ true
leaf-has c a = ground (
  arith,
  any-append (λ (x : ResolvedClass). x.class_iri == c.class_iri) a (c ∷ []),
  eq_refl c.class_iri,
)

abbrev iris : List ResolvedClass → List Str
iris a = map (λ (c : ResolvedClass). c.class_iri) a

has_class-iris : (i : Str) (a : List ResolvedClass) → contains i (iris a) ≡ has_class i a
has_class-iris i [] = refl
has_class-iris i (c ∷ a) = ap (λ x. (c.class_iri == i) || x) (has_class-iris i a)

unfoldable pub Once : List ResolvedClass → Type 0
Once a = all_distinct (iris a) ≡ true

distinct-snoc :
    (k : Str) (ks : List Str)
    → all_distinct ks ≡ true
    → contains k ks ≡ false
    → all_distinct (ks ++ k ∷ []) ≡ true
distinct-snoc k [] h c = refl
distinct-snoc k (x ∷ xs) h c =
    ground (arith, eq_iff x k, eq_iff k x, any-append (λ y. y == x) xs (k ∷ []), distinct-snoc k xs)

pub kept-once :
    (c : ResolvedClass) (a : List ResolvedClass)
    → Once a
    → Once (if has_class c.class_iri a then a else a ++ c ∷ [])
unfolding Once
kept-once c a h = elim (Bool-cases (has_class c.class_iri a)) [
  | inl old ↦ rw old h
  | inr new ↦ rw new (
      rw (map-append (λ (x : ResolvedClass). x.class_iri) a (c ∷ []))
        (distinct-snoc c.class_iri (iris a) h (has_class-iris c.class_iri a ∙ new)))
]

pub kept-all :
    (P : ResolvedClass → Type 0) (c : ResolvedClass) (a : List ResolvedClass)
    → P c
    → All P a
    → All P (if has_class c.class_iri a then a else a ++ c ∷ [])
kept-all P c a p h = elim (Bool-cases (has_class c.class_iri a)) [
  | inl old ↦ rw old h
  | inr new ↦ rw new (All-append P a (c ∷ []) h (p, tt))
]

module _ (look : String → Option Str) where
  labelled-iri :
      (k : Str) (c d : ResolvedClass) (o : Option Str)
      → labelled look k c o ≡ ok d
      → d.class_iri ≡ c.class_iri
  labelled-iri k c d none e = absurd (cc e)
  labelled-iri k c d (some s) e = ap (λ (x : ResolvedClass). x.class_iri) (sym (ok_same _ d e))

  type_tested-iri :
      (k : Str) (c d : ResolvedClass) → type_tested look k c ≡ ok d → d.class_iri ≡ c.class_iri
  type_tested-iri k c d e = elim (Bool-cases (is_label_style c.style)) [
    | inl labels ↦ labelled-iri k c d (look "labelsField") (rw labels at e)
    | inr plain ↦ ap (λ (x : ResolvedClass). x.class_iri) (sym (ok_same _ d (rw plain at e)))
  ]

  styled_class-iri :
      (cfg : Config) (k : Str) (style physical : Option Str) (c : ResolvedClass)
      → (styled_class look cfg k style physical).1 ≡ ok c
      → c.class_iri ≡ k
  styled_class-iri cfg k style none c e =
      type_tested-iri k (untested_class look cfg k style (unnamed_collection look k style)) c e
  styled_class-iri cfg k style (some s) c e =
      type_tested-iri k (untested_class look cfg k style s) c e

  pub declared_class-iri :
      (cfg : Config) (k : Str) (style : Option Str) (c : ResolvedClass)
      → (declared_class look cfg k style).1 ≡ ok c
      → c.class_iri ≡ k
  declared_class-iri cfg k style c e = elim (Bool-cases (known_style style)) [
    | inr unknown ↦ absurd (cc (rw unknown at e))
    | inl known ↦ elim (Bool-cases (is_style "UNION" style)) [
      | inl union ↦
          ap (λ (x : ResolvedClass). x.class_iri) (sym (ok_same _ c (rw (known, union) at e)))
      | inr other ↦ styled_class-iri cfg k style (look "collectionName") c (rw (known, other) at e)
    ]
  ]
