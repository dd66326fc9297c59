-- ===== src/Translate/Synthesis/Own.antt =====
-- The triples of one entity among those that arango_sparql/translate/resolver.py synthesizes.
use arango_sparql_py.Base.{
  ◌≡◌, Bool, true, false, ◌&&◌, ◌||◌, List, [], ◌∷◌, ◌++◌, refl, sym, ap, ◌∙◌, arith, subst,
  append_assoc,
}
use arango_sparql_py.Base.Tests.{and-eq-true}
use arango_sparql_py.Base.Eq.{◌==◌, nat_eq, list_eq, eq_refl}
use arango_sparql_py.Base.Lists.{contains, is_nil, all, all-append, any-append}
use arango_sparql_py.Base.Dict.{Dict, get}
use arango_sparql_py.Base.Json.{Json, Fields, entries}
use arango_sparql_py.Base.Str.{Str, codes}
use arango_sparql_py.Errors.{Result, ◌>>=◌, ok_of_bind, ok_same}
use arango_sparql_py.Mapping.{MappingBundle, entities, relationships}
use arango_sparql_py.Translate.{Term, Triple}
use arango_sparql_py.Translate.Rdf.{triple, triple_eq, term_eq}
use arango_sparql_py.Translate.Resolver.{a_type, owl}
use arango_sparql_py.Translate.Synthesis.{
  synthetic_iri, concept, own_triples, entity_triples, spec_triples, all_entities, iterated_or_none,
  named_dicts,
}
use arango_sparql_py.Translate.Synthesis.Bundle.{
  all_concepts, all_relationships, parts_of, synthesized, subtypes_of, endpoints_of,
}
use arango_sparql_py.Translate.Synthesis.Annotated.{
  written, asked, says, both_or, own-contains, elsewhere-contains,
}
use arango_sparql_py.Translate.Synthesis.Elsewhere.{
  Elsewhere, Plain, apart, names_of, property_names, spec-parts, entities-Elsewhere,
  Elsewhere-append, Plain-append, Plain-of_Elsewhere, own-Plain, entity-Elsewhere,
}
use arango_sparql_py.Translate.Synthesis.Others.{concepts-Elsewhere, relationships-Elsewhere}
use Json.{object}
use Result.{ok}

pub or_false : (b : Bool) → (b || false) ≡ b
or_false b = ground arith

first_of_or : (x y b : Bool) → x ≡ true → (b || (x && true && true || y)) ≡ true
first_of_or x y b h = ground (arith, h)

module _ (repr : Json → Str) (dumps : List Str → Str) (label : Str) where
  -- Triples among which the concept's own stand once, and no other annotates it.
  pub record HasOwn (spec : Dict Str Json) (ts : List Triple) : Type 0 where
    before : List Triple
    after : List Triple
    all_of : ts ≡ before ++ (own_triples repr dumps label spec ++ after)
    before_elsewhere : Elsewhere repr dumps label before
    after_elsewhere : Elsewhere repr dumps label after

  pub HasOwn-after :
      (spec : Dict Str Json) (ts us : List Triple)
      → HasOwn spec ts
      → Elsewhere repr dumps label us
      → HasOwn spec (ts ++ us)
  HasOwn-after spec ts us h k = record {
    before = h.before;
    after = h.after ++ us;
    all_of =
        ap (λ x. x ++ us) h.all_of
        ∙ append_assoc h.before (own_triples repr dumps label spec ++ h.after) us
        ∙ ap (λ x. h.before ++ x) (append_assoc (own_triples repr dumps label spec) h.after us);
    before_elsewhere = h.before_elsewhere;
    after_elsewhere = Elsewhere-append repr dumps label h.after us h.after_elsewhere k;
  }

  HasOwn-before :
      (spec : Dict Str Json) (ts us : List Triple)
      → Elsewhere repr dumps label ts
      → HasOwn spec us
      → HasOwn spec (ts ++ us)
  HasOwn-before spec ts us k h = record {
    before = ts ++ h.before;
    after = h.after;
    all_of =
        ap (λ x. ts ++ x) h.all_of
        ∙ sym (append_assoc ts h.before (own_triples repr dumps label spec ++ h.after));
    before_elsewhere = Elsewhere-append repr dumps label ts h.before k h.before_elsewhere;
    after_elsewhere = h.after_elsewhere;
  }

  pub HasOwn-contains :
      (spec : Dict Str Json) (ts : List Triple) (n : Str) (o : Term)
      → HasOwn spec ts
      → contains (asked repr dumps label n o) ts ≡ says (written repr dumps spec n) o
  HasOwn-contains spec ts n o h =
      ap (contains (asked repr dumps label n o)) h.all_of
      ∙ any-append (λ t. t == asked repr dumps label n o) h.before
          (own_triples repr dumps label spec ++ h.after)
      ∙ both_or (elsewhere-contains repr dumps label h.before n o h.before_elsewhere) (
          any-append (λ t. t == asked repr dumps label n o) (own_triples repr dumps label spec)
            h.after
          ∙ both_or (own-contains repr dumps label spec n o)
              (elsewhere-contains repr dumps label h.after n o h.after_elsewhere))
      ∙ or_false (says (written repr dumps spec n) o)

  pub HasOwn-Plain :
      (spec : Dict Str Json) (ts : List Triple) → HasOwn spec ts → Plain repr dumps label ts
  HasOwn-Plain spec ts h = rw h.all_of (
      Plain-append repr dumps label h.before (own_triples repr dumps label spec ++ h.after)
        (Plain-of_Elsewhere repr dumps label h.before h.before_elsewhere)
        (Plain-append repr dumps label (own_triples repr dumps label spec) h.after
          (own-Plain repr dumps label label spec)
          (Plain-of_Elsewhere repr dumps label h.after h.after_elsewhere)))

  pub HasOwn-class :
      (spec : Dict Str Json) (ts : List Triple)
      → HasOwn spec ts
      → contains (triple (concept label) a_type (owl "Class")) ts ≡ true
  HasOwn-class spec ts h =
      ap (contains (triple (concept label) a_type (owl "Class"))) h.all_of
      ∙ any-append (λ t. t == triple (concept label) a_type (owl "Class")) h.before
          (own_triples repr dumps label spec ++ h.after)
      ∙ first_of_or _ _ (contains (triple (concept label) a_type (owl "Class")) h.before)
          (eq_refl (synthetic_iri label))

  entity-spec :
      (other : Str) (subtypes : Dict Str Json) (fs : Fields)
      → is_nil other ≡ false
      → entity_triples repr dumps subtypes other (object fs)
        ≡ spec_triples repr dumps subtypes other (object fs)
  entity-spec [] subtypes fs h = absurd (cc h)
  entity-spec (c ∷ other) subtypes fs h = refl

  entities-HasOwn :
      (subtypes before : Dict Str Json) (fs : Fields) (after : Dict Str Json) (ts : List Triple)
      → is_nil label ≡ false
      → all_entities repr dumps subtypes (before ++ (label, object fs) ∷ after) ≡ ok ts
      → all (apart repr dumps label) (names_of before) ≡ true
      → all (apart repr dumps label) (property_names (object fs)) ≡ true
      → all (apart repr dumps label) (names_of after) ≡ true
      → HasOwn (entries fs) ts
  unfolding all_entities
  entities-HasOwn subtypes [] fs after ts nonempty e h k m =
      let (us, first, more) =
        ok_of_bind (entity_triples repr dumps subtypes label (object fs))
          (λ us. all_entities repr dumps subtypes after >>= λ vs. ok (us ++ vs)) ts e in
      let (vs, second, last) =
        ok_of_bind (all_entities repr dumps subtypes after) (λ vs. ok (us ++ vs)) ts more in
      let (ws, same, rest) =
        spec-parts repr dumps label subtypes label fs us
          (sym (entity-spec label subtypes fs nonempty) ∙ first) k in
      subst (HasOwn (entries fs)) (ok_same (us ++ vs) ts last) (
        HasOwn-after (entries fs) us vs
          (record {
            before = [];
            after = ws;
            all_of = same;
            before_elsewhere = refl;
            after_elsewhere = rest;
          })
          (entities-Elsewhere repr dumps label subtypes after vs second m))
  entities-HasOwn subtypes ((other, spec) ∷ before) fs after ts nonempty e h k m =
      let (us, first, more) =
        ok_of_bind (entity_triples repr dumps subtypes other spec)
          (λ us. all_entities repr dumps subtypes (before ++ (label, object fs) ∷ after) >>= λ vs.
            ok (us ++ vs))
          ts e in
      let (vs, second, last) =
        ok_of_bind (all_entities repr dumps subtypes (before ++ (label, object fs) ∷ after))
          (λ vs. ok (us ++ vs)) ts more in
      let both =
        and-eq-true (all (apart repr dumps label) (property_names spec))
          (all (apart repr dumps label) (names_of before))
          (sym (all-append (apart repr dumps label) (property_names spec) (names_of before))
            ∙ (and-eq-true (apart repr dumps label other)
                (all (apart repr dumps label) (property_names spec ++ names_of before)) h).1) in
      subst (HasOwn (entries fs)) (ok_same (us ++ vs) ts last) (
        HasOwn-before (entries fs) us vs
          (entity-Elsewhere repr dumps label subtypes other spec us first
            (and-eq-true (apart repr dumps label other)
              (all (apart repr dumps label) (property_names spec ++ names_of before)) h).0
            both.0)
          (entities-HasOwn subtypes before fs after vs nonempty second both.1 k m))

module _ (repr : Json → Str) (dumps : List Str → Str) (label : Str) where
  parts-HasOwn :
      (b : MappingBundle) (concepts rels : List Json) (before : Dict Str Json) (fs : Fields)
      (after : Dict Str Json) (ts : List Triple)
      → is_nil label ≡ false
      → entities b ≡ before ++ (label, object fs) ∷ after
      → all (apart repr dumps label) (names_of before) ≡ true
      → all (apart repr dumps label) (property_names (object fs)) ≡ true
      → all (apart repr dumps label) (names_of after) ≡ true
      → all (λ (e : Str × Json). apart repr dumps label e.0) (relationships b) ≡ true
      → parts_of repr dumps b concepts rels ≡ ok ts
      → HasOwn repr dumps label (entries fs) ts
  parts-HasOwn b concepts rels before fs after ts nonempty e h k m n made =
      let (us, first, more) =
        ok_of_bind (all_entities repr dumps (subtypes_of repr dumps concepts []) (entities b))
          (λ us. all_concepts repr dumps concepts >>= λ cs.
            all_relationships repr dumps (endpoints_of repr dumps rels []) (relationships b)
            >>= λ rs. ok (us ++ (cs ++ rs)))
          ts made in
      let (cs, second, last) =
        ok_of_bind (all_concepts repr dumps concepts)
          (λ cs.
            all_relationships repr dumps (endpoints_of repr dumps rels []) (relationships b)
            >>= λ rs. ok (us ++ (cs ++ rs)))
          ts more in
      let (rs, third, end) =
        ok_of_bind
          (all_relationships repr dumps (endpoints_of repr dumps rels []) (relationships b))
          (λ rs. ok (us ++ (cs ++ rs))) ts last in
      subst (HasOwn repr dumps label (entries fs)) (ok_same (us ++ (cs ++ rs)) ts end) (
        HasOwn-after repr dumps label (entries fs) us (cs ++ rs)
          (entities-HasOwn repr dumps label (subtypes_of repr dumps concepts []) before fs after us
            nonempty
            (sym (ap (all_entities repr dumps (subtypes_of repr dumps concepts [])) e) ∙ first) h k
            m)
          (Elsewhere-append repr dumps label cs rs
            (concepts-Elsewhere repr dumps label concepts cs second)
            (relationships-Elsewhere repr dumps label (endpoints_of repr dumps rels [])
              (relationships b) rs third n)))

  pub synthesized-HasOwn :
      (b : MappingBundle) (before : Dict Str Json) (fs : Fields) (after : Dict Str Json)
      (ts : List Triple)
      → is_nil label ≡ false
      → entities b ≡ before ++ (label, object fs) ∷ after
      → all (apart repr dumps label) (names_of before) ≡ true
      → all (apart repr dumps label) (property_names (object fs)) ≡ true
      → all (apart repr dumps label) (names_of after) ≡ true
      → all (λ (e : Str × Json). apart repr dumps label e.0) (relationships b) ≡ true
      → synthesized repr dumps b ≡ ok ts
      → HasOwn repr dumps label (entries fs) ts
  unfolding synthesized
  synthesized-HasOwn b before fs after ts nonempty e h k m n made =
      let (es, _, more) =
        ok_of_bind (iterated_or_none (get (codes "entities") b.conceptual_schema))
          (λ es. iterated_or_none (get (codes "relationships") b.conceptual_schema) >>= λ rs.
            parts_of repr dumps b (named_dicts "name" es) (named_dicts "type" rs))
          ts made in
      let (rs, _, parts) =
        ok_of_bind (iterated_or_none (get (codes "relationships") b.conceptual_schema))
          (λ rs. parts_of repr dumps b (named_dicts "name" es) (named_dicts "type" rs)) ts more in
      parts-HasOwn b (named_dicts "name" es) (named_dicts "type" rs) before fs after ts nonempty e h
        k m n parts
