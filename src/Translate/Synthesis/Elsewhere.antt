-- ===== src/Translate/Synthesis/Elsewhere.antt =====
-- The triples that arango_sparql/translate/resolver.py synthesizes for one concept annotate no other.
use arango_sparql_py.Base.{
  ◌≡◌, Bool, true, ◌&&◌, Option, none, some, List, [], ◌∷◌, ◌++◌, map, refl, sym, ap, ◌∙◌, arith,
}
use arango_sparql_py.Base.Tests.{and-eq-true}
use arango_sparql_py.Base.Eq.{nat_eq, list_eq}
use arango_sparql_py.Base.Lists.{all, all-append}
use arango_sparql_py.Base.Dict.{Dict, get}
use arango_sparql_py.Base.Json.{
  Json, Fields, entries, null, boolean, integer, float, text, array, object,
}
use arango_sparql_py.Base.Str.{Str, codes}
use arango_sparql_py.Errors.{Result, ◌>>=◌, ok_of_bind, ok_same}
use arango_sparql_py.Schema.Scope.{field_of}
use arango_sparql_py.Translate.{Triple}
use arango_sparql_py.Translate.Rdf.{triple_eq, term_eq}
use arango_sparql_py.Translate.Synthesis.{
  if_given, annotations, subclasses, properties, property_map, own_triples, members_of,
  entity_collection, style_of, entity_annotations, spec_triples, entity_triples, all_entities,
  not_null,
}
use arango_sparql_py.Translate.Synthesis.Annotated.{
  is_plain, is_elsewhere, is_apart, subclasses-Elsewhere, properties-Elsewhere,
}
use Result.{ok}

-- the names that entities give to their properties
abbrev pub property_names : Json → List Str
property_names spec =
    map (λ (e : Str × Json). e.0) (property_map (field_of (codes "properties") spec))

abbrev pub names_of : Dict Str Json → List Str
names_of [] = []
names_of ((label, spec) ∷ d) = label ∷ property_names spec ++ names_of d

module _ (repr : Json → Str) (dumps : List Str → Str) (label : Str) where
  abbrev pub Elsewhere : List Triple → Type 0
  Elsewhere ts = all (is_elsewhere repr dumps label) ts ≡ true

  abbrev pub Plain : List Triple → Type 0
  Plain ts = all (is_plain repr dumps label) ts ≡ true

  abbrev pub apart : Str → Bool
  apart = is_apart repr dumps label

  pub Elsewhere-append : (ts us : List Triple) → Elsewhere ts → Elsewhere us → Elsewhere (ts ++ us)
  Elsewhere-append ts us h k = all-append (is_elsewhere repr dumps label) ts us ∙ rw h k

  pub Plain-append : (ts us : List Triple) → Plain ts → Plain us → Plain (ts ++ us)
  Plain-append ts us h k = all-append (is_plain repr dumps label) ts us ∙ rw h k

  pub Plain-of_Elsewhere : (ts : List Triple) → Elsewhere ts → Plain ts
  Plain-of_Elsewhere [] h = refl
  Plain-of_Elsewhere (t ∷ ts) h = ground (arith, h, Plain-of_Elsewhere ts)

  pub given-Elsewhere :
      (other name : Str) (v : Option Str)
      → apart other ≡ true
      → Elsewhere (if_given repr dumps other name v)
  given-Elsewhere other name none h = refl
  given-Elsewhere other name (some s) h = ground (arith, h)

  given-Plain : (other name : Str) (v : Option Str) → Plain (if_given repr dumps other name v)
  given-Plain other name none = refl
  given-Plain other name (some s) = refl

  pub annotations-Elsewhere :
      (other : Str) (spec : Dict Str Json) (names : List Str)
      → apart other ≡ true
      → Elsewhere (annotations repr dumps other spec names)
  unfolding annotations
  annotations-Elsewhere other spec [] h = refl
  annotations-Elsewhere other spec (name ∷ names) h =
      Elsewhere-append (if_given repr dumps other name (not_null repr dumps (get name spec)))
        (annotations repr dumps other spec names)
        (given-Elsewhere other name (not_null repr dumps (get name spec)) h)
        (annotations-Elsewhere other spec names h)

  annotations-Plain :
      (other : Str) (spec : Dict Str Json) (names : List Str)
      → Plain (annotations repr dumps other spec names)
  unfolding annotations
  annotations-Plain other spec [] = refl
  annotations-Plain other spec (name ∷ names) =
      Plain-append (if_given repr dumps other name (not_null repr dumps (get name spec)))
        (annotations repr dumps other spec names)
        (given-Plain other name (not_null repr dumps (get name spec)))
        (annotations-Plain other spec names)

  own-Elsewhere :
      (other : Str) (spec : Dict Str Json)
      → apart other ≡ true
      → Elsewhere (own_triples repr dumps other spec)
  own-Elsewhere other spec h =
      Elsewhere-append
        (if_given repr dumps other (codes "collectionName") (entity_collection repr dumps spec))
        (if_given repr dumps other (codes "mappingStyle")
            (some (style_of repr dumps spec "COLLECTION"))
          ++ annotations repr dumps other spec entity_annotations)
        (given-Elsewhere other (codes "collectionName") (entity_collection repr dumps spec) h)
        (Elsewhere-append
          (if_given repr dumps other (codes "mappingStyle")
            (some (style_of repr dumps spec "COLLECTION")))
          (annotations repr dumps other spec entity_annotations)
          (given-Elsewhere other (codes "mappingStyle")
            (some (style_of repr dumps spec "COLLECTION")) h)
          (annotations-Elsewhere other spec entity_annotations h))

  pub own-Plain : (other : Str) (spec : Dict Str Json) → Plain (own_triples repr dumps other spec)
  own-Plain other spec =
      Plain-append
        (if_given repr dumps other (codes "collectionName") (entity_collection repr dumps spec))
        (if_given repr dumps other (codes "mappingStyle")
            (some (style_of repr dumps spec "COLLECTION"))
          ++ annotations repr dumps other spec entity_annotations)
        (given-Plain other (codes "collectionName") (entity_collection repr dumps spec))
        (annotations-Plain other spec entity_annotations)

  -- what the spec of an entity adds besides its own annotations
  all-map :
      (p : Str → Bool) (d : Dict Str Json)
      → all p (map (λ (e : Str × Json). e.0) d) ≡ all (λ (e : Str × Json). p e.0) d
  all-map p [] = refl
  all-map p ((k, j) ∷ d) = ap (λ b. p k && b) (all-map p d)

  pub spec-parts :
      (subtypes : Dict Str Json) (other : Str) (fs : Fields) (ts : List Triple)
      → spec_triples repr dumps subtypes other (object fs) ≡ ok ts
      → all apart (property_names (object fs)) ≡ true
      → (us : List Triple) × (ts ≡ own_triples repr dumps other (entries fs) ++ us) × Elsewhere us
  spec-parts subtypes other fs ts e h =
      let (ms, first, more) =
        ok_of_bind (members_of repr dumps (entries fs) (get other subtypes))
          (λ ms.
            properties repr dumps other (property_map (get (codes "properties") (entries fs)))
            >>= λ ps. ok (
                own_triples repr dumps other (entries fs)
                ++ (subclasses repr dumps other ms ++ ps)))
          ts e in
      let (ps, second, last) =
        ok_of_bind
          (properties repr dumps other (property_map (get (codes "properties") (entries fs))))
          (λ ps.
            ok
              (own_triples repr dumps other (entries fs) ++ (subclasses repr dumps other ms ++ ps)))
          ts more in
      (
        subclasses repr dumps other ms ++ ps,
        sym (
            ok_same
              (own_triples repr dumps other (entries fs) ++ (subclasses repr dumps other ms ++ ps))
              ts last),
        Elsewhere-append (subclasses repr dumps other ms) ps
            (subclasses-Elsewhere repr dumps label other ms)
            (properties-Elsewhere repr dumps label other
              (property_map (get (codes "properties") (entries fs))) ps second
              (sym (all-map apart (property_map (get (codes "properties") (entries fs)))) ∙ h)),
      )

  pub entity-Elsewhere :
      (subtypes : Dict Str Json) (other : Str) (spec : Json) (ts : List Triple)
      → entity_triples repr dumps subtypes other spec ≡ ok ts
      → apart other ≡ true
      → all apart (property_names spec) ≡ true
      → Elsewhere ts
  entity-Elsewhere subtypes [] spec ts e h k = rw (sym (ok_same [] ts e)) refl
  entity-Elsewhere subtypes (c ∷ other) (object fs) ts e h k =
      let (us, same, rest) = spec-parts subtypes (c ∷ other) fs ts e k in
      rw same (
        Elsewhere-append (own_triples repr dumps (c ∷ other) (entries fs)) us
          (own-Elsewhere (c ∷ other) (entries fs) h) rest)
  entity-Elsewhere subtypes (c ∷ other) null ts e h k = absurd (cc e)
  entity-Elsewhere subtypes (c ∷ other) (boolean b) ts e h k = absurd (cc e)
  entity-Elsewhere subtypes (c ∷ other) (integer n) ts e h k = absurd (cc e)
  entity-Elsewhere subtypes (c ∷ other) (float s) ts e h k = absurd (cc e)
  entity-Elsewhere subtypes (c ∷ other) (text s) ts e h k = absurd (cc e)
  entity-Elsewhere subtypes (c ∷ other) (array js) ts e h k = absurd (cc e)

  pub entities-Elsewhere :
      (subtypes d : Dict Str Json) (ts : List Triple)
      → all_entities repr dumps subtypes d ≡ ok ts
      → all apart (names_of d) ≡ true
      → Elsewhere ts
  unfolding all_entities
  entities-Elsewhere subtypes [] ts e h = rw (sym (ok_same [] ts e)) refl
  entities-Elsewhere subtypes ((other, spec) ∷ d) ts e h =
      let (us, first, more) =
        ok_of_bind (entity_triples repr dumps subtypes other spec)
          (λ us. all_entities repr dumps subtypes d >>= λ vs. ok (us ++ vs)) ts e in
      let (vs, second, last) =
        ok_of_bind (all_entities repr dumps subtypes d) (λ vs. ok (us ++ vs)) ts more in
      let here : all apart (property_names spec ++ names_of d) ≡ true = ground (arith, h) in
      let both : (all apart (property_names spec) && all apart (names_of d)) ≡ true =
        sym (all-append apart (property_names spec) (names_of d)) ∙ here in
      rw (sym (ok_same (us ++ vs) ts last)) (
        Elsewhere-append us vs
          (entity-Elsewhere subtypes other spec us first (ground (arith, h))
            (and-eq-true (all apart (property_names spec)) (all apart (names_of d)) both).0)
          (entities-Elsewhere subtypes d vs second
            (and-eq-true (all apart (property_names spec)) (all apart (names_of d)) both).1))
