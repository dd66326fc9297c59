-- ===== src/Translate/Synthesis/Others.antt =====
-- The triples that arango_sparql/translate/resolver.py synthesizes for conceptual properties and for
-- relationships annotate no class.
use arango_sparql_py.Base.{
  ◌≡◌, true, Option, none, some, List, [], ◌∷◌, ◌++◌, String, refl, sym, arith,
}
use arango_sparql_py.Base.Eq.{nat_eq, list_eq}
use arango_sparql_py.Base.Lists.{all}
use arango_sparql_py.Base.Dict.{Dict, get}
use arango_sparql_py.Base.Json.{
  Json, entries, as_text, null, boolean, integer, float, text, array, object,
}
use arango_sparql_py.Base.Str.{Str, codes}
use arango_sparql_py.Errors.{Result, ◌>>=◌, ok_of_bind, ok_same}
use arango_sparql_py.Schema.Scope.{field_of}
use arango_sparql_py.Translate.{Term, Triple}
use arango_sparql_py.Translate.Rdf.{triple_eq, term_eq}
use arango_sparql_py.Translate.Synthesis.{
  concept, if_given, annotations, relationship_collection, style_of, relationship_annotations, at,
  filled, iterated_or_none,
}
use arango_sparql_py.Translate.Synthesis.Bundle.{
  Endpoints, concept_property, concept_properties, all_concepts, endpoint, spec_relationship,
  relationship_triples, all_relationships, value_at, str_, or_json, endpoint_pair,
}
use Result.{ok}
use arango_sparql_py.Translate.Synthesis.Elsewhere.{
  Elsewhere, apart, Elsewhere-append, given-Elsewhere, annotations-Elsewhere,
}

module _ (repr : Json → Str) (dumps : List Str → Str) (label : Str) where
  one_concept :
      (domain : Term) (name : Option Str)
      → Elsewhere repr dumps label (concept_property repr dumps domain name)
  one_concept domain none = refl
  one_concept domain (some name) = refl

  concept-Elsewhere :
      (domain : Term) (ps : List Json)
      → Elsewhere repr dumps label (concept_properties repr dumps domain ps)
  concept-Elsewhere domain [] = refl
  concept-Elsewhere domain (p ∷ ps) =
      Elsewhere-append repr dumps label
        (concept_property repr dumps domain (filled (as_text (value_at "name" p))))
        (concept_properties repr dumps domain ps)
        (one_concept domain (filled (as_text (value_at "name" p)))) (concept-Elsewhere domain ps)

  pub concepts-Elsewhere :
      (es : List Json) (ts : List Triple)
      → all_concepts repr dumps es ≡ ok ts
      → Elsewhere repr dumps label ts
  unfolding all_concepts
  concepts-Elsewhere [] ts e = rw (sym (ok_same [] ts e)) refl
  concepts-Elsewhere (c ∷ es) ts e =
      let (ps, first, more) =
        ok_of_bind (iterated_or_none (field_of (codes "properties") c))
          (λ ps. all_concepts repr dumps es >>= λ us. ok (
            concept_properties repr dumps (concept (str_ repr dumps (value_at "name" c))) ps ++ us))
          ts e in
      let (us, second, last) =
        ok_of_bind (all_concepts repr dumps es)
          (λ us. ok (
            concept_properties repr dumps (concept (str_ repr dumps (value_at "name" c))) ps ++ us))
          ts more in
      rw
        (sym (
          ok_same
            (concept_properties repr dumps (concept (str_ repr dumps (value_at "name" c))) ps ++ us)
            ts last))
        (Elsewhere-append repr dumps label
          (concept_properties repr dumps (concept (str_ repr dumps (value_at "name" c))) ps) us
          (concept-Elsewhere (concept (str_ repr dumps (value_at "name" c))) ps)
          (concepts-Elsewhere es us second))

  endpoint-Elsewhere :
      (other : Str) (predicate : String) (name : Option Str)
      → Elsewhere repr dumps label (endpoint repr dumps other predicate name)
  endpoint-Elsewhere other predicate none = refl
  endpoint-Elsewhere other predicate (some name) = refl

  ends-Elsewhere :
      (other : Str) (spec : Dict Str Json) (f t : Option Str)
      → apart repr dumps label other ≡ true
      → Elsewhere repr dumps label (
          endpoint repr dumps other "domain" f
          ++ (endpoint repr dumps other "range" t
              ++ annotations repr dumps other spec relationship_annotations))
  ends-Elsewhere other spec f t h =
      Elsewhere-append repr dumps label (endpoint repr dumps other "domain" f)
        (endpoint repr dumps other "range" t
          ++ annotations repr dumps other spec relationship_annotations)
        (endpoint-Elsewhere other "domain" f)
        (Elsewhere-append repr dumps label (endpoint repr dumps other "range" t)
          (annotations repr dumps other spec relationship_annotations)
          (endpoint-Elsewhere other "range" t)
          (annotations-Elsewhere repr dumps label other spec relationship_annotations h))

  relation-Elsewhere :
      (other : Str) (c st : Option Str) (ts : List Triple)
      → apart repr dumps label other ≡ true
      → Elsewhere repr dumps label ts
      → Elsewhere repr dumps label (
          if_given repr dumps other (codes "edgeCollectionName") c
          ++ (if_given repr dumps other (codes "mappingStyle") st ++ ts))
  relation-Elsewhere other c st ts h k =
      Elsewhere-append repr dumps label (if_given repr dumps other (codes "edgeCollectionName") c)
        (if_given repr dumps other (codes "mappingStyle") st ++ ts)
        (given-Elsewhere repr dumps label other (codes "edgeCollectionName") c h)
        (Elsewhere-append repr dumps label (if_given repr dumps other (codes "mappingStyle") st) ts
          (given-Elsewhere repr dumps label other (codes "mappingStyle") st h) k)

  spec_relationship-Elsewhere :
      (ends : Endpoints) (other : Str) (spec : Dict Str Json)
      → apart repr dumps label other ≡ true
      → Elsewhere repr dumps label (spec_relationship repr dumps ends other spec)
  spec_relationship-Elsewhere ends other spec h =
      let from_ =
        filled (
          as_text (or_json (at repr dumps spec "fromEntity") (endpoint_pair (get other ends)).0)) in
      let to_ =
        filled
          (as_text (or_json (at repr dumps spec "toEntity") (endpoint_pair (get other ends)).1)) in
      relation-Elsewhere other (relationship_collection repr dumps spec)
        (some (style_of repr dumps spec "DEDICATED_COLLECTION"))
        (endpoint repr dumps other "domain" from_
          ++ (endpoint repr dumps other "range" to_
              ++ annotations repr dumps other spec relationship_annotations))
        h (ends-Elsewhere other spec from_ to_ h)

  relationship-Elsewhere :
      (ends : Endpoints) (other : Str) (spec : Json) (ts : List Triple)
      → relationship_triples repr dumps ends other spec ≡ ok ts
      → apart repr dumps label other ≡ true
      → Elsewhere repr dumps label ts
  relationship-Elsewhere ends [] spec ts e h = rw (sym (ok_same [] ts e)) refl
  relationship-Elsewhere ends (c ∷ other) (object fs) ts e h =
      rw (sym (ok_same (spec_relationship repr dumps ends (c ∷ other) (entries fs)) ts e))
        (spec_relationship-Elsewhere ends (c ∷ other) (entries fs) h)
  relationship-Elsewhere ends (c ∷ other) null ts e h = absurd (cc e)
  relationship-Elsewhere ends (c ∷ other) (boolean b) ts e h = absurd (cc e)
  relationship-Elsewhere ends (c ∷ other) (integer n) ts e h = absurd (cc e)
  relationship-Elsewhere ends (c ∷ other) (float s) ts e h = absurd (cc e)
  relationship-Elsewhere ends (c ∷ other) (text s) ts e h = absurd (cc e)
  relationship-Elsewhere ends (c ∷ other) (array js) ts e h = absurd (cc e)

  pub relationships-Elsewhere :
      (ends : Endpoints) (d : Dict Str Json) (ts : List Triple)
      → all_relationships repr dumps ends d ≡ ok ts
      → all (λ (e : Str × Json). apart repr dumps label e.0) d ≡ true
      → Elsewhere repr dumps label ts
  unfolding all_relationships
  relationships-Elsewhere ends [] ts e h = rw (sym (ok_same [] ts e)) refl
  relationships-Elsewhere ends ((other, spec) ∷ d) ts e h =
      let (us, first, more) =
        ok_of_bind (relationship_triples repr dumps ends other spec)
          (λ us. all_relationships repr dumps ends d >>= λ vs. ok (us ++ vs)) ts e in
      let (vs, second, last) =
        ok_of_bind (all_relationships repr dumps ends d) (λ vs. ok (us ++ vs)) ts more in
      rw (sym (ok_same (us ++ vs) ts last)) (
        Elsewhere-append repr dumps label us vs
          (relationship-Elsewhere ends other spec us first (ground (arith, h)))
          (relationships-Elsewhere ends d vs second (ground (arith, h))))
