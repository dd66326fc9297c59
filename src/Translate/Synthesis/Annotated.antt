-- ===== src/Translate/Synthesis/Annotated.antt =====
-- The annotations of one concept among the triples that arango_sparql/translate/resolver.py synthesizes.
use arango_sparql_py.Base.{
  ◌≡◌, Bool, true, false, not, ◌&&◌, ◌||◌, Option, none, some, List, [], ◌∷◌, ◌++◌, String, refl,
  sym, ◌∙◌, inl, inr, arith, subst,
}
use arango_sparql_py.Base.Tests.{Bool-cases, if◌then◌else◌}
use arango_sparql_py.Base.Eq.{◌==◌, nat_eq, list_eq, eq_refl, eq_iff}
use arango_sparql_py.Base.Lists.{contains, all, all-append, any-append, all_of_contains}
use arango_sparql_py.Base.Dict.{Dict, get}
use arango_sparql_py.Base.Json.{Json, as_text}
use arango_sparql_py.Base.Str.{Str, codes, starts_with}
use arango_sparql_py.Errors.{Result, ◌>>=◌, ok_of_bind, ok_same}
use arango_sparql_py.Mapping.Names.{property_field_path}
use arango_sparql_py.Translate.{Term, Triple, term_text}
use arango_sparql_py.Translate.Rdf.{triple, triple_eq, term_eq}
use arango_sparql_py.Translate.Resolver.{a_type, owl}
use arango_sparql_py.Translate.Synthesis.{
  synthetic_iri, concept, phys, plain_literal, entity_annotations, not_null, style_of,
  entity_collection, if_given, annotations, subclass, subclasses, location_triples,
  property_triples, properties, own_triples, is_property_of, filled,
}
use Result.{ok}

-- whether an annotation says that its object is `o`
abbrev pub says : Option Str → Term → Bool
says none o = false
says (some s) o = plain_literal s == o

abbrev pub namespace_of : String → Triple → Bool
namespace_of ns t = starts_with (term_text t.predicate) (codes ns)

pub both_or : {a b c d : Bool} → a ≡ c → b ≡ d → (a || b) ≡ (c || d)
both_or e f = cc

flipped : (a b : Str) → (a == b) ≡ false → (b == a) ≡ false
flipped a b h = ground (arith, eq_iff a b, eq_iff b a)

-- one annotation of three, of which the names differ
abbrev Picks : Option Str → Option Str → Option Str → Term → Str → Type 0
Picks v w u o n =
    ((codes "collectionName" == n && says v o)
      || ((codes "mappingStyle" == n && says w o) || (contains n entity_annotations && says u o)))
    ≡ says
        (if n == codes "collectionName"
          then v
          else if n == codes "mappingStyle"
          then w
          else if contains n entity_annotations
          then u
          else none)
        o

some_picks :
    (u : Option Str) (o : Term) (b : Bool) → (b && says u o) ≡ says (if b then u else none) o
some_picks u o true = refl
some_picks u o false = refl

picks : (v w u : Option Str) (o : Term) (n : Str) → Picks v w u o n
picks v w u o n = elim (Bool-cases (codes "collectionName" == n)) [
  | inl same ↦ subst (Picks v w u o) ((eq_iff (codes "collectionName") n).0 same) (ground arith)
  | inr other ↦ elim (Bool-cases (codes "mappingStyle" == n)) [
    | inl same ↦ subst (Picks v w u o) ((eq_iff (codes "mappingStyle") n).0 same) (ground arith)
    | inr differs ↦
        rw
          (
            other,
            differs,
            flipped (codes "collectionName") n other,
            flipped (codes "mappingStyle") n differs,
          )
          (some_picks u o (contains n entity_annotations))
  ]
]

module _ (repr : Json → Str) (dumps : List Str → Str) where
  -- the annotation of a class as it is written from the spec of its entity
  abbrev pub written : Dict Str Json → Str → Option Str
  written spec name =
      if name == codes "collectionName"
      then entity_collection repr dumps spec
      else if name == codes "mappingStyle"
      then some (style_of repr dumps spec "COLLECTION")
      else if contains name entity_annotations
      then not_null repr dumps (get name spec)
      else none

  module _ (label : Str) where
    abbrev pub asked : Str → Term → Triple
    asked name o = triple (concept label) (phys name) o

    -- A triple under none of the other namespaces, and one that annotates another concept.
    abbrev pub is_plain : Triple → Bool
    is_plain t = not (namespace_of "https" t)

    abbrev pub is_elsewhere : Triple → Bool
    is_elsewhere t =
        is_plain t
        && not (namespace_of "http://arangodb.com/schema/physical#" t && t.subject == concept label)

    abbrev pub is_apart : Str → Bool
    is_apart name = not (synthetic_iri name == synthetic_iri label)

    pub elsewhere-contains :
        (ts : List Triple) (name : Str) (o : Term)
        → all is_elsewhere ts ≡ true
        → contains (asked name o) ts ≡ false
    elsewhere-contains ts name o h = elim (Bool-cases (contains (asked name o) ts)) [
      | inr absent ↦ absent
      | inl found ↦ absurd (clash (all_of_contains is_elsewhere (asked name o) ts h found))
    ]
      where
        clash : is_elsewhere (asked name o) ≡ true → ⊥
        clash e = cc (eq_refl (synthetic_iri label), e)

    if_given-contains :
        (name n : Str) (v : Option Str) (o : Term)
        → contains (asked n o) (if_given repr dumps label name v) ≡ (name == n && says v o)
    if_given-contains name n none o = ground arith
    if_given-contains name n (some s) o = ground (arith, eq_refl (synthetic_iri label))

    merged :
        (spec : Dict Str Json) (name n : Str) (o : Term) (rest : Bool)
        → ((name == n && says (not_null repr dumps (get name spec)) o)
            || (rest && says (not_null repr dumps (get n spec)) o))
          ≡ ((name == n || rest) && says (not_null repr dumps (get n spec)) o)
    merged spec name n o rest = elim (Bool-cases (name == n)) [
      | inl same ↦
          subst
            (λ x.
              ((name == x && says (not_null repr dumps (get name spec)) o)
                || (rest && says (not_null repr dumps (get x spec)) o))
              ≡ ((name == x || rest) && says (not_null repr dumps (get x spec)) o))
            ((eq_iff name n).0 same) (ground (arith, eq_refl name))
      | inr other ↦ rw other refl
    ]

    annotations-contains :
        (spec : Dict Str Json) (names : List Str) (n : Str) (o : Term)
        → contains (asked n o) (annotations repr dumps label spec names)
          ≡ (contains n names && says (not_null repr dumps (get n spec)) o)
    unfolding annotations
    annotations-contains spec [] n o = refl
    annotations-contains spec (name ∷ names) n o =
        any-append (λ t. t == asked n o)
          (if_given repr dumps label name (not_null repr dumps (get name spec)))
          (annotations repr dumps label spec names)
        ∙ both_or (if_given-contains name n (not_null repr dumps (get name spec)) o)
            (annotations-contains spec names n o)
        ∙ merged spec name n o (contains n names)

    type-other :
        (n : Str) (o : Term)
        → ◌==◌ {A = Triple} (triple (concept label) a_type (owl "Class")) (asked n o) ≡ false
    type-other n o = ground arith

    pub own-contains :
        (spec : Dict Str Json) (n : Str) (o : Term)
        → contains (asked n o) (own_triples repr dumps label spec) ≡ says (written spec n) o
    own-contains spec n o =
        both_or (type-other n o) (
          refl
            {a = contains (asked n o) (
              if_given repr dumps label (codes "collectionName") (entity_collection repr dumps spec)
              ++ (if_given repr dumps label (codes "mappingStyle") style ++ rest))})
        ∙ any-append (λ t. t == asked n o)
            (if_given repr dumps label (codes "collectionName") (entity_collection repr dumps spec))
            (if_given repr dumps label (codes "mappingStyle") style ++ rest)
        ∙ both_or
            (if_given-contains (codes "collectionName") n (entity_collection repr dumps spec) o)
            (any-append (λ t. t == asked n o)
                (if_given repr dumps label (codes "mappingStyle") style) rest
              ∙ both_or (if_given-contains (codes "mappingStyle") n style o)
                  (annotations-contains spec entity_annotations n o))
        ∙ picks (entity_collection repr dumps spec) style (not_null repr dumps (get n spec)) o n
      where
        style : Option Str
        style = some (style_of repr dumps spec "COLLECTION")

        rest : List Triple
        rest = annotations repr dumps label spec entity_annotations

    pub subclasses-Elsewhere :
        (other : Str) (ms : List Json) → all is_elsewhere (subclasses repr dumps other ms) ≡ true
    unfolding subclasses
    subclasses-Elsewhere other [] = refl
    subclasses-Elsewhere other (m ∷ ms) =
        all-append is_elsewhere (subclass repr dumps other (filled (as_text m)))
          (subclasses repr dumps other ms)
        ∙ rw (one (filled (as_text m))) (subclasses-Elsewhere other ms)
      where
        one : (member : Option Str) → all is_elsewhere (subclass repr dumps other member) ≡ true
        one none = refl
        one (some member) = refl

    location-Elsewhere :
        (name : Str) (names : Option (List Str))
        → is_apart name ≡ true
        → all is_elsewhere (location_triples repr dumps name names) ≡ true
    location-Elsewhere name none h = refl
    location-Elsewhere name (some []) h = refl
    location-Elsewhere name (some (field ∷ [])) h = elim (Bool-cases (field == name)) [
      | inl same ↦ rw same refl
      | inr other ↦ rw other (ground (arith, h))
    ]
    location-Elsewhere name (some (s ∷ t ∷ ss)) h = ground (arith, h)

    property-Elsewhere :
        (other name : Str) (spec : Json) (ts : List Triple)
        → property_triples repr dumps other name spec ≡ ok ts
        → is_apart name ≡ true
        → all is_elsewhere ts ≡ true
    property-Elsewhere other [] spec ts e h = rw (sym (ok_same [] ts e)) refl
    property-Elsewhere other (c ∷ name) spec ts e h =
        let (names, first, second) =
          ok_of_bind (property_field_path spec)
            (λ names. ok (
              is_property_of repr dumps (c ∷ name) (concept other)
              ++ location_triples repr dumps (c ∷ name) names))
            ts e in
        rw (sym (ok_same _ ts second)) (location-Elsewhere (c ∷ name) names h)

    pub properties-Elsewhere :
        (other : Str) (d : Dict Str Json) (ts : List Triple)
        → properties repr dumps other d ≡ ok ts
        → all (λ (e : Str × Json). is_apart e.0) d ≡ true
        → all is_elsewhere ts ≡ true
    unfolding properties
    properties-Elsewhere other [] ts e h = rw (sym (ok_same _ ts e)) refl
    properties-Elsewhere other ((name, spec) ∷ d) ts e h =
        let (us, first, more) =
          ok_of_bind (property_triples repr dumps other name spec)
            (λ us. properties repr dumps other d >>= λ vs. ok (us ++ vs)) ts e in
        let (vs, second, last) =
          ok_of_bind (properties repr dumps other d) (λ vs. ok (us ++ vs)) ts more in
        rw (sym (ok_same (us ++ vs) ts last)) (
          all-append is_elsewhere us vs
          ∙ rw (property-Elsewhere other name spec us first (ground (arith, h)))
              (properties-Elsewhere other d vs second (ground (arith, h))))
