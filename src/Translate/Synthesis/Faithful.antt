-- ===== src/Translate/Synthesis/Faithful.antt =====
-- A class of a synthesized ontology resolves to what the spec of its entity states:
-- arango_sparql/translate/resolver.py.
use arango_sparql_py.Base.{
  ◌≡◌, Bool, true, false, not, ◌||◌, Option, none, some, List, [], ◌∷◌, ◌++◌, String, refl, sym, ap,
  ◌∙◌, inl, inr, arith, subst,
}
use mathlib.Core.Path.{fun_ext}
use arango_sparql_py.Base.Tests.{Option-cases}
use arango_sparql_py.Base.Eq.{nat_eq, list_eq, eq_refl, eq_iff}
use arango_sparql_py.Base.Lists.{contains, is_nil, all, all_of_contains}
use arango_sparql_py.Base.Dict.{Dict}
use arango_sparql_py.Base.Json.{Json, Fields, entries}
use arango_sparql_py.Base.Str.{Str, codes, starts_with}
use arango_sparql_py.Errors.{Result, ◌>>=◌, ok_of_bind, ok_same}
use arango_sparql_py.Mapping.{MappingBundle, entities, relationships}
use arango_sparql_py.Translate.{Term, Triple, term_text}
use arango_sparql_py.Translate.Rdf.{Rdf, triple, triple_eq, term_eq}
use arango_sparql_py.Translate.Resolver.{
  a_type, owl, declared_class, resolve_class, physical_string, annotation, has_type, or_first,
}
use arango_sparql_py.Translate.Resolver.Classes.{ResolvedClass, Fallback, Config}
use arango_sparql_py.Translate.Synthesis.{synthetic_iri, concept, phys, plain_literal, filled}
use arango_sparql_py.Translate.Synthesis.Bundle.{
  synthesized, add_all, ontology_of, from_mapping_bundle,
}
use arango_sparql_py.Translate.Synthesis.Annotated.{written, asked, is_plain, says}
use arango_sparql_py.Translate.Synthesis.Stated.{stated, written-stated}
use arango_sparql_py.Translate.Synthesis.Resolved.{AllOk, IsAnnotated, declared_class-IsAnnotated}
use arango_sparql_py.Translate.Synthesis.Elsewhere.{apart, names_of, property_names}
use arango_sparql_py.Translate.Resolver.Families.{project_shard_families, family_by_collection}
use arango_sparql_py.Translate.Synthesis.Own.{
  HasOwn, HasOwn-contains, HasOwn-Plain, HasOwn-class, synthesized-HasOwn, or_false,
}
use Json.{object}
use Result.{ok}
use Term.{iri}

ap2_first : {v w : Option Term} → v ≡ none → w ≡ none → or_first v (or_first w none) ≡ none
ap2_first e f = ground (arith, e, f)

-- what is read of the objects of an annotation that says at most one
read :
    (v : Option Term) (s : Option Str)
    → (v ≡ none → (o : Term) → says s o ≡ false)
    → ((o : Term) → v ≡ some o → says s o ≡ true)
    → or_first v none ≡ s
read none none absent found = refl
read none (some t) absent found =
    absurd (cc (absent refl (plain_literal t), eq_refl (plain_literal t)))
read (some o) none absent found = absurd (cc (found o refl))
read (some o) (some t) absent found =
    ap (λ x. some (term_text x)) (sym ((eq_iff (plain_literal t) o).0 (found o refl)))

module _ (r : Rdf) where
  add_all-holds :
      (u : Triple) (ts : List Triple) (g : r.Graph)
      → r.holds u (add_all r ts g) ≡ (contains u ts || r.holds u g)
  unfolding add_all
  add_all-holds u [] g = refl
  add_all-holds u (t ∷ ts) g =
      add_all-holds u ts (r.add t g)
      ∙ ap (λ b. contains u ts || b) (r.holds_add t u g)
      ∙ ground arith

  graph-holds : (u : Triple) (ts : List Triple) → r.holds u (add_all r ts r.empty) ≡ contains u ts
  graph-holds u ts =
      add_all-holds u ts r.empty
      ∙ ap (λ b. contains u ts || b) (r.holds_empty u)
      ∙ or_false (contains u ts)

  module _ (repr : Json → Str) (dumps : List Str → Str) (label : Str) (spec : Dict Str Json)
      (ts : List Triple) (own : HasOwn repr dumps label spec ts) where
    abbrev graph : r.Graph
    graph = add_all r ts r.empty

    -- no annotation is in another namespace
    foreign-none :
        (p : Str)
        → starts_with p (codes "https") ≡ true
        → r.value (concept label) (iri p) graph ≡ none
    foreign-none p h = elim (Option-cases (r.value (concept label) (iri p) graph)) [
      | inl absent ↦ absent
      | inr (o, found) ↦
          let there =
            sym (graph-holds (triple (concept label) (iri p) o) ts)
            ∙ r.value_some (concept label) (iri p) o graph found in
          absurd (
            clash
              (all_of_contains (is_plain repr dumps label) (triple (concept label) (iri p) o) ts
                (HasOwn-Plain repr dumps label spec ts own) there)
              h)
    ]
      where
        clash : {b : Bool} → not b ≡ true → b ≡ true → ⊥
        clash e f = cc (e, f)

    said :
        (n : Str) (o : Term)
        → r.holds (asked repr dumps label n o) graph ≡ says (written repr dumps spec n) o
    said n o =
        graph-holds (asked repr dumps label n o) ts
        ∙ HasOwn-contains repr dumps label spec ts n o own

    first_read :
        (n : Str)
        → or_first (r.value (concept label) (phys n) graph) none ≡ written repr dumps spec n
    first_read n =
        read (r.value (concept label) (phys n) graph) (written repr dumps spec n)
          (λ e o. sym (said n o) ∙ r.value_none (concept label) (phys n) o graph e)
          (λ o e. sym (said n o) ∙ r.value_some (concept label) (phys n) o graph e)

    annotated :
        (name : String)
        → physical_string r graph (synthetic_iri label) name ≡ written repr dumps spec (codes name)
    unfolding annotation
    annotated name =
        ap (λ v. or_first (r.value (concept label) (phys (codes name)) graph) v)
          (ap2_first (foreign-none (codes "https://arango.solutions/phys#" ++ codes name) refl) (
            foreign-none (codes "https://arango-schema-mapper.example.org/phys#" ++ codes name)
              refl))
        ∙ first_read (codes name)

    is_declared : has_type r graph (synthetic_iri label) "Class" ≡ true
    is_declared =
        graph-holds (triple (concept label) a_type (owl "Class")) ts
        ∙ HasOwn-class repr dumps label spec ts own

    class_of_graph :
        (cfg : Config)
        → resolve_class r graph cfg (synthetic_iri label)
          ≡ declared_class
              (λ name. written repr dumps spec (codes name))
              cfg
              (synthetic_iri label)
              (written repr dumps spec (codes "mappingStyle"))
    unfolding resolve_class
    class_of_graph cfg = rw is_declared (
        ap
          (λ (look : String → Option Str).
            declared_class look cfg (synthetic_iri label) (look "mappingStyle"))
          (fun_ext annotated))

module _ (repr : Json → Str) (dumps : List Str → Str) (label : Str) where
  module _ (r : Rdf) (parse : Str → Result r.Graph) where
    -- the graph of a bundle without an ontology is of its triples
    from_mapping_bundle-triples :
        (default : Str) (permissive : Bool) (b : MappingBundle) (g : r.Graph) (cfg : Config)
        → filled b.owl_turtle ≡ none
        → from_mapping_bundle repr dumps r parse default permissive b ≡ ok (g, cfg)
        → (ts : List Triple) × (synthesized repr dumps b ≡ ok ts) × (add_all r ts r.empty ≡ g)
    unfolding from_mapping_bundle
    from_mapping_bundle-triples default permissive b g cfg no_owl made =
        let (g', first, more) =
          ok_of_bind (ontology_of repr dumps r parse b (filled b.owl_turtle))
            (λ g. family_by_collection (project_shard_families b.physical_mapping) >>= λ families.
              ok (
                g,
                record {
                  default_collection = default;
                  permissive = permissive;
                  families = families;
                },
              ))
            (g, cfg) made in
        let (families, _, last) =
          ok_of_bind (family_by_collection (project_shard_families b.physical_mapping))
            (λ families. ok (
              g',
              record { default_collection = default; permissive = permissive; families = families },
            ))
            (g, cfg) more in
        let (ts, synth, built) =
          ok_of_bind (synthesized repr dumps b) (λ ts. ok (add_all r ts r.empty)) g'
            (sym (ap (ontology_of repr dumps r parse b) no_owl) ∙ first) in
        (
          ts,
          synth,
          ok_same (add_all r ts r.empty) g' built
              ∙ ap (λ (x : r.Graph × Config). x.0) (ok_same _ (g, cfg) last),
        )

    -- A resolver that is made of a bundle without an ontology resolves the class of an entity as one
    -- with the annotations that the entity's spec states, if no other entity, property or relationship
    -- of the bundle has a name with the same IRI; the class, if it resolves, has the stated style and
    -- tenant's annotations, and is a supertype or has the stated collection, if one is stated, the
    -- columns, and the type field and value or the labels' field.
    pub resolve_class-from_mapping_bundle :
        (default : Str) (permissive : Bool) (b : MappingBundle) (g : r.Graph) (cfg : Config)
        (before : Dict Str Json) (fs : Fields) (after : Dict Str Json)
        → is_nil label ≡ false
        → filled b.owl_turtle ≡ none
        → entities b ≡ before ++ (label, object fs) ∷ after
        → all (apart repr dumps label) (names_of before) ≡ true
        → all (apart repr dumps label) (property_names (object fs)) ≡ true
        → all (apart repr dumps label) (names_of after) ≡ true
        → all (λ (e : Str × Json). apart repr dumps label e.0) (relationships b) ≡ true
        → from_mapping_bundle repr dumps r parse default permissive b ≡ ok (g, cfg)
        → (resolve_class r g cfg (synthetic_iri label)
            ≡ declared_class
                (λ name. stated repr dumps (entries fs) (codes name))
                cfg
                (synthetic_iri label)
                (stated repr dumps (entries fs) (codes "mappingStyle")))
          × AllOk
              (IsAnnotated
                (λ name. stated repr dumps (entries fs) (codes name))
                (synthetic_iri label))
              (resolve_class r g cfg (synthetic_iri label)).1
    resolve_class-from_mapping_bundle default permissive b g cfg before fs after nonempty no_owl e h
          k m n made =
        let (ts, synth, same) =
          from_mapping_bundle-triples default permissive b g cfg no_owl made in
        let read : resolve_class r g cfg (synthetic_iri label)
            ≡ declared_class (λ name. stated repr dumps (entries fs) (codes name)) cfg
                (synthetic_iri label) (stated repr dumps (entries fs) (codes "mappingStyle")) =
          subst
            (λ x.
              resolve_class r x cfg (synthetic_iri label)
              ≡ declared_class (λ name. stated repr dumps (entries fs) (codes name)) cfg
                  (synthetic_iri label) (stated repr dumps (entries fs) (codes "mappingStyle")))
            same
            (class_of_graph r repr dumps label (entries fs) ts
                (synthesized-HasOwn repr dumps label b before fs after ts nonempty e h k m n synth)
                cfg
              ∙ ap
                  (λ (look : String → Option Str).
                    declared_class look cfg (synthetic_iri label) (look "mappingStyle"))
                  (fun_ext (λ name. written-stated repr dumps (entries fs) (codes name)))) in
        (
          read,
          subst
              (λ (x : List Fallback × Result ResolvedClass).
                AllOk
                  (IsAnnotated (λ name. stated repr dumps (entries fs) (codes name))
                    (synthetic_iri label))
                  x.1)
              (sym read)
              (declared_class-IsAnnotated (λ name. stated repr dumps (entries fs) (codes name)) cfg
                (synthetic_iri label)),
        )
