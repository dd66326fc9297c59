-- ===== src/Translate/Resolver/Surveys/Stores.antt =====
-- `triple_store_class` of arango_sparql/translate/resolver.py: when a mapping is one table of triples.
use arango_sparql_py.Base.{
  ◌≡◌, ◌↔◌, Bool, true, false, ◌&&◌, Option, none, some, List, [], ◌∷◌, refl, sym, ap, ◌∙◌, subst,
  inl, inr, arith,
}
use arango_sparql_py.Base.Tests.{Bool-cases}
use arango_sparql_py.Base.Eq.{◌==◌, nat_eq, list_eq, eq_iff}
use arango_sparql_py.Base.Lists.{contains, all, is_nil}
use arango_sparql_py.Base.Str.{Str, codes}
use arango_sparql_py.Errors.{Error, Result, ◌>>=◌, ok_of_bind, ok_same}
use arango_sparql_py.Translate.Rdf.{Rdf}
use arango_sparql_py.Translate.Resolver.{or_default, is_style, has_type, resolve_class}
use arango_sparql_py.Translate.Resolver.Classes.{ResolvedClass, Config}
use arango_sparql_py.Translate.Resolver.Surveys.{
  is_rpt, layout, one_table, triple_store_iri, TripleStore, answer_store, declared, resolve_all,
  triple_store_class,
}
use arango_sparql_py.Translate.Resolver.Surveys.Declared.{declared-contains}
use Result.{ok, err}

-- before the first question
abbrev pub unasked : TripleStore
unasked = record { checked = false; found = none }

-- A class is in the table of triples with some columns and tenant field.
abbrev OnLayout : List Str → Result ResolvedClass → Type 0
OnLayout l q = (c : ResolvedClass) × (q ≡ ok c) × (is_rpt c ≡ true) × (layout c ≡ l)

-- No tenant field is told apart from the text None no more than the source's `str` does.
abbrev pub tenant_text : Option Str → Str
tenant_text none = codes "None"
tenant_text (some s) = s

-- two classes in one table, with its columns and tenant field
abbrev pub SameTable : ResolvedClass → ResolvedClass → Type 0
SameTable c d =
    (c.collection ≡ d.collection)
    × (c.subject_column ≡ d.subject_column)
    × (c.predicate_column ≡ d.predicate_column)
    × (c.object_uri_column ≡ d.object_uri_column)
    × (c.object_value_column ≡ d.object_value_column)
    × (tenant_text c.tenant_field ≡ tenant_text d.tenant_field)

-- A class is found, of the RPT style and in the table of `t`.
abbrev pub OnTable : ResolvedClass → Result ResolvedClass → Type 0
OnTable t q = (c : ResolvedClass) × (q ≡ ok c) × (c.style ≡ some (codes "RPT")) × SameTable c t

tenant_text-or : (o : Option Str) → or_default (codes "None") o ≡ tenant_text o
tenant_text-or none = refl
tenant_text-or (some s) = refl

layout-SameTable : (c d : ResolvedClass) → (layout c ≡ layout d) ↔ SameTable c d
unfolding layout
layout-SameTable c d =
    let p = tenant_text-or c.tenant_field in
    let q = tenant_text-or d.tenant_field in
    (λ e. (cc e, cc e, cc e, cc e, cc e, cc (e, p, q)), λ (a, b, f, g, h, i). cc)

is_style-rpt : (o : Option Str) → (is_style "RPT" o ≡ true) ↔ (o ≡ some (codes "RPT"))
is_style-rpt none = (λ e. absurd (cc e), λ e. absurd (cc e))
is_style-rpt (some s) =
    (λ e. ap some ((eq_iff s (codes "RPT")).0 e), λ e. (eq_iff s (codes "RPT")).1 (cc e))

OnLayout-OnTable :
    (t : ResolvedClass) (q : Result ResolvedClass) → OnLayout (layout t) q ↔ OnTable t q
OnLayout-OnTable t q = (
  λ (c, e, rpt, same). (c, e, (is_style-rpt c.style).0 rpt, (layout-SameTable c t).0 same),
  λ (c, e, rpt, same). (c, e, (is_style-rpt c.style).1 rpt, (layout-SameTable c t).1 same),
)

abbrev laid_out : List Str → List ResolvedClass → Bool
laid_out l cs = all is_rpt cs && all (λ d. layout d == l) cs

layout-renamed : (c : ResolvedClass) (k : Str) → layout (record c { class_iri = k }) ≡ layout c
unfolding layout
layout-renamed c k = refl

layout_or : ResolvedClass → Option ResolvedClass → List Str
layout_or d none = layout d
layout_or d (some c) = layout c

one_table-some :
    (cs : List ResolvedClass) (c : ResolvedClass)
    → one_table cs ≡ some c
    → (laid_out (layout c) cs ≡ true) × (is_nil cs ≡ false)
unfolding layout_or
one_table-some [] c e = absurd (cc e)
one_table-some (d ∷ ds) c e =
    elim (Bool-cases (all is_rpt (d ∷ ds) && all (λ x. layout x == layout d) ds)) [
      | inr no_table ↦ absurd (cc (rw no_table at e))
      | inl table ↦
          let same : layout d ≡ layout c =
            sym (layout-renamed d triple_store_iri) ∙ ap (layout_or d) (rw table at e) in
          (
            subst (λ l. laid_out l (d ∷ ds) ≡ true) same
                (ground (arith, table, eq_iff (layout d) (layout d))),
            refl,
          )
    ]

table-one :
    (l : List Str) (cs : List ResolvedClass)
    → laid_out l cs ≡ true
    → is_nil cs ≡ false
    → (c : ResolvedClass) × (one_table cs ≡ some c)
      × (c.class_iri ≡ triple_store_iri)
      × (layout c ≡ l)
table-one l [] h n = absurd (cc n)
table-one l (d ∷ ds) h n =
    let same : layout d ≡ l = (eq_iff (layout d) l).0 (ground arith) in
    let table = subst (λ m. laid_out m (d ∷ ds) ≡ true) (sym same) h in
    (
      record d { class_iri = triple_store_iri },
      ground (arith, table),
      refl,
      layout-renamed d triple_store_iri ∙ same,
    )

answered_some :
    (q : Result (List ResolvedClass)) (c : ResolvedClass)
    → (answer_store (record { checked = true; found = none }) q).0 ≡ ok (some c)
    → (cs : List ResolvedClass) × (q ≡ ok cs) × (one_table cs ≡ some c)
answered_some (ok cs) c e = (cs, refl, ok_same (one_table cs) (some c) e)
answered_some (err x) c e = absurd (cc e)

contains-nonempty : (k : Str) (ks : List Str) → contains k ks ≡ true → is_nil ks ≡ false
contains-nonempty k [] m = absurd (cc m)
contains-nonempty k (j ∷ js) m = refl

module _ (r : Rdf) (g : r.Graph) (cfg : Config) where
  resolve_all-nonempty :
      (ks : List Str) (cs : List ResolvedClass)
      → resolve_all r g cfg ks ≡ ok cs
      → is_nil cs ≡ false
      → (k : Str) × (contains k ks ≡ true)
  unfolding resolve_all
  resolve_all-nonempty [] cs e n = absurd (cc (n, ap is_nil (ok_same [] cs e)))
  resolve_all-nonempty (k ∷ ks) cs e n = (k, ground (arith, eq_iff k k))

  resolve_all-OnLayout :
      (l : List Str) (k : Str) (ks : List Str) (cs : List ResolvedClass)
      → resolve_all r g cfg ks ≡ ok cs
      → laid_out l cs ≡ true
      → contains k ks ≡ true
      → OnLayout l (resolve_class r g cfg k).1
  unfolding resolve_all
  resolve_all-OnLayout l k [] cs e h m = absurd (cc m)
  resolve_all-OnLayout l k (j ∷ js) cs e h m =
      let (c, first, after) =
        ok_of_bind (resolve_class r g cfg j).1 (λ c. resolve_all r g cfg js >>= λ ds. ok (c ∷ ds))
          cs e in
      let (ds, rest, last) = ok_of_bind (resolve_all r g cfg js) (λ ds. ok (c ∷ ds)) cs after in
      let laid = subst (λ xs. laid_out l xs ≡ true) (sym (ok_same (c ∷ ds) cs last)) h in
      elim (Bool-cases (j == k)) [
        | inl same ↦ (
          c,
          ap (λ x. (resolve_class r g cfg x).1) (sym ((eq_iff j k).0 same)) ∙ first,
          ground arith,
          (eq_iff (layout c) l).0 (ground arith),
        )
        | inr other ↦ resolve_all-OnLayout l k js ds rest (ground arith) (ground (arith, m, other))
      ]

  OnLayout-resolve_all :
      (l : List Str) (ks : List Str)
      → ((k : Str) → contains k ks ≡ true → OnLayout l (resolve_class r g cfg k).1)
      → (cs : List ResolvedClass) × (resolve_all r g cfg ks ≡ ok cs)
        × (laid_out l cs ≡ true)
        × (is_nil cs ≡ is_nil ks)
  unfolding resolve_all
  OnLayout-resolve_all l [] h = ([], refl, refl, refl)
  OnLayout-resolve_all l (k ∷ ks) h =
      let (c, e, rpt, same) = h k (ground (arith, eq_iff k k)) in
      let (cs, rest, laid, _) = OnLayout-resolve_all l ks (λ j m. h j (ground (arith, m))) in
      (c ∷ cs, rw (e, rest) refl, ground (arith, rpt, laid, (eq_iff (layout c) l).1 same), refl)

  -- Asked first, the resolver answers with a triple store, under the triple store's own IRI, of some
  -- table, columns and tenant field exactly when the ontology declares a class, and every class that
  -- it declares resolves to the RPT style with that table, columns and tenant field, where no tenant
  -- field and one named None are not told apart.
  pub triple_store_class-OnTable :
      (t : ResolvedClass)
      → ((c : ResolvedClass) × ((triple_store_class r g cfg unasked).0 ≡ ok (some c))
          × (c.class_iri ≡ codes "urn:arango-sparql:triple-store")
          × SameTable c t)
        ↔ (((k : Str) × (has_type r g k "Class" ≡ true))
            × ((k : Str) → has_type r g k "Class" ≡ true → OnTable t (resolve_class r g cfg k).1))
  unfolding triple_store_class
  triple_store_class-OnTable t = (
    λ (c, e, _, same).
        let (cs, f, one) = answered_some (resolve_all r g cfg (declared r g "Class")) c e in
        let (laid, filled) = one_table-some cs c one in
        let (k, m) = resolve_all-nonempty (declared r g "Class") cs f filled in
        (
          (k, sym (declared-contains r g "Class" k) ∙ m),
          λ k m. (OnLayout-OnTable t (resolve_class r g cfg k).1).0 (
              resolve_all-OnLayout (layout t) k (declared r g "Class") cs f
                (subst (λ x. laid_out x cs ≡ true) ((layout-SameTable c t).1 same) laid)
                (declared-contains r g "Class" k ∙ m)),
        ),
    λ h.
        let (cs, f, laid, filled) = OnLayout-resolve_all (layout t) (declared r g "Class") (λ k m.
          (OnLayout-OnTable t (resolve_class r g cfg k).1).1
            (h.1 k (sym (declared-contains r g "Class" k) ∙ m))) in
        let (c, one, named, same) = table-one (layout t) cs laid (
          filled
          ∙ contains-nonempty h.0.0 (declared r g "Class")
              (declared-contains r g "Class" h.0.0 ∙ h.0.1)) in
        (c, rw f (ap ok one), named, (layout-SameTable c t).0 same),
  )

  -- A question for the triple store that fails is answered the next time it is asked, with no
  -- triple store.
  pub asked_again_after_error :
      (e : Error)
      → (triple_store_class r g cfg unasked).0 ≡ err e
      → (triple_store_class r g cfg (triple_store_class r g cfg unasked).1).0 ≡ ok none
  unfolding triple_store_class
  asked_again_after_error e h = failed (resolve_all r g cfg (declared r g "Class")) e h
    where
      failed :
          (q : Result (List ResolvedClass)) (e : Error)
          → (answer_store (record { checked = true; found = none }) q).0 ≡ err e
          → (triple_store_class r g cfg
              (answer_store (record { checked = true; found = none }) q).1).0
            ≡ ok none
      failed (ok cs) e h = absurd (cc h)
      failed (err x) e h = refl
