-- ===== src/Translate/Resolver/Surveys/Attributes.antt =====
-- `attribute_uri_map` of arango_sparql/translate/resolver.py: the least IRI of each attribute.
use arango_sparql_py.Base.{
  ◌≡◌, ◌↔◌, true, false, Option, none, some, List, [], ◌∷◌, refl, sym, ap, ◌∙◌, subst, inl, inr,
  arith,
}
use arango_sparql_py.Base.Tests.{if◌then◌else◌, Bool-cases}
use arango_sparql_py.Base.Eq.{◌==◌, nat_eq, list_eq, eq_iff}
use arango_sparql_py.Base.Lists.{contains, All}
use arango_sparql_py.Base.Order.{nat_order, list_order, Ascending, sorted-Ascending}
use arango_sparql_py.Base.Dict.{Dict, get}
use arango_sparql_py.Base.Json.{Json}
use arango_sparql_py.Base.Str.{Str}
use arango_sparql_py.Errors.{Result, ok_same}
use arango_sparql_py.Translate.Rdf.{Rdf}
use arango_sparql_py.Translate.Resolver.{has_type, a_type, owl, iri_texts, distinct}
use arango_sparql_py.Translate.Resolver.Properties.{resolve_property}
use arango_sparql_py.Translate.Resolver.Surveys.{declared_once}
use arango_sparql_py.Translate.Resolver.Surveys.Catalogue.{index_attributes, attribute_uri_map}
use arango_sparql_py.Translate.Resolver.Surveys.Declared.{declared_once-contains}
use Result.{ok}
use arango_sparql_py.Translate.Resolver.Surveys.Entries.{
  IsFlat, flat, is_at, or_later, flat-IsFlat, is_at-flat, or_later-none, or_later-if, step-get,
}

All-at : (P : Str → Type 0) (k : Str) (ks : List Str) → All P ks → contains k ks ≡ true → P k
All-at P k [] h m = absurd (cc m)
All-at P k (i ∷ is) h m = elim (Bool-cases (i == k)) [
  | inl same ↦ subst P ((eq_iff i k).0 same) h.0
  | inr other ↦ All-at P k is h.1 (ground (arith, other))
]

module _ (r : Rdf) (g : r.Graph) (loads : Str → Option Json) where
  -- the first property of a list that is stored at an attribute
  first_at : Str → List Str → Option Str
  first_at a [] = none
  first_at a (k ∷ ks) =
      if is_at a (flat (resolve_property r g loads k).1) then some k else first_at a ks

  index_attributes-get :
      (a : Str) (ks : List Str) (index out : Dict Str Str)
      → (index_attributes r g loads ks index).1 ≡ ok out
      → get a out ≡ or_later (get a index) (first_at a ks)
  unfolding index_attributes first_at
  index_attributes-get a [] index out e =
      ap (get a) (sym (ok_same index out e)) ∙ or_later-none (get a index)
  index_attributes-get a (k ∷ ks) index out e =
      let res = resolve_property r g loads k in
      let (mid, later, at) = step-get a k index out (index_attributes r g loads ks) res e in
      index_attributes-get a ks mid out later
      ∙ ap (λ o. or_later o (first_at a ks)) at
      ∙ or_later-if (get a index) (first_at a ks) (is_at a (flat res.1)) k

  abbrev pub StoredAt : Str → Str → Type 0
  StoredAt a k = IsFlat a (resolve_property r g loads k).1

  -- Of those that are stored at an attribute, none in a list comes before it.
  abbrev IsLeastOf : List Str → Str → Str → Type 0
  IsLeastOf ks a k =
      (contains k ks ≡ true)
      × StoredAt a k
      × ((j : Str) → contains j ks ≡ true → StoredAt a j → list_order.below j k ≡ false)

  not_stored :
      (a i j : Str)
      → is_at a (flat (resolve_property r g loads i).1) ≡ false
      → StoredAt a j
      → (i == j) ≡ true
      → ⊥
  not_stored a i j none_here h same =
      let there = is_at-flat a (resolve_property r g loads j).1 h in
      let here = ap (λ x. is_at a (flat (resolve_property r g loads x).1)) ((eq_iff i j).0 same) in
      cc (there, here, none_here)

  first_at-IsLeastOf :
      (a k : Str) (ks : List Str) → Ascending ks → first_at a ks ≡ some k → IsLeastOf ks a k
  unfolding first_at
  first_at-IsLeastOf a k [] h e = absurd (cc e)
  first_at-IsLeastOf a k (i ∷ is) h e =
      elim (Bool-cases (is_at a (flat (resolve_property r g loads i).1))) [
        | inl found ↦
            let same : i ≡ k = cc (rw found at e) in
            subst (IsLeastOf (i ∷ is) a) same (
              ground (arith, eq_iff i i),
              flat-IsFlat a (resolve_property r g loads i).1 found,
              λ j m s. elim (Bool-cases (i == j)) [
                | inl itself ↦
                    subst (λ x. list_order.below x i ≡ false) ((eq_iff i j).0 itself)
                      (list_order.irreflexive i)
                | inr other ↦
                    All-at (λ y. list_order.below y i ≡ false) j is h.0 (ground (arith, m, other))
              ],
            )
        | inr not_here ↦
            let (m, s, least) = first_at-IsLeastOf a k is h.1 (rw not_here at e) in
            (
              ground (arith, m),
              s,
              λ j n t. elim (Bool-cases (i == j)) [
                | inl same ↦ absurd (not_stored a i j not_here t same)
                | inr other ↦ least j (ground (arith, n, other)) t
              ],
            )
      ]

  first_at-some :
      (a k : Str) (ks : List Str)
      → contains k ks ≡ true
      → StoredAt a k
      → (i : Str) × (first_at a ks ≡ some i)
  unfolding first_at
  first_at-some a k [] m h = absurd (cc m)
  first_at-some a k (i ∷ is) m h =
      elim (Bool-cases (is_at a (flat (resolve_property r g loads i).1))) [
        | inl found ↦ (i, rw found refl)
        | inr not_here ↦ elim (Bool-cases (i == k)) [
          | inl same ↦ absurd (not_stored a i k not_here h same)
          | inr other ↦
              let (j, e) = first_at-some a k is (ground (arith, m, other)) h in (j, rw not_here e)
        ]
      ]

  -- A declared datatype property that resolves to a top-level attribute, and no smaller IRI does.
  abbrev pub IsLeast : Str → Str → Type 0
  IsLeast a k =
      (has_type r g k "DatatypeProperty" ≡ true)
      × StoredAt a k
      × ((j : Str)
          → has_type r g j "DatatypeProperty" ≡ true
          → StoredAt a j
          → list_order.below j k ≡ false)

  -- If the map of attributes is built, it has for an attribute exactly the least IRI of the declared
  -- datatype properties that are stored there at the top level, and no entry where there is none.
  pub attribute_uri_map-IsLeast :
      (index : Dict Str Str)
      → (attribute_uri_map r g loads).1 ≡ ok index
      → (a k : Str) → (get a index ≡ some k) ↔ IsLeast a k
  unfolding attribute_uri_map get declared_once
  attribute_uri_map-IsLeast index e a k =
      let ks = declared_once r g "DatatypeProperty" in
      let at = index_attributes-get a ks [] index e in
      let in_order =
        sorted-Ascending (distinct (iri_texts (r.subjects a_type (owl "DatatypeProperty") g))) in
      let known = λ (j : Str). declared_once-contains r g "DatatypeProperty" j in
      (
        λ f.
            let (m, s, least) = first_at-IsLeastOf a k ks in_order (sym at ∙ f) in
            (sym (known k) ∙ m, s, λ j d t. least j (known j ∙ d) t),
        λ h.
            let (i, found) = first_at-some a k ks (known k ∙ h.0) h.1 in
            let (m, s, least) = first_at-IsLeastOf a i ks in_order found in
            at
            ∙ found
            ∙ ap some
                (list_order.total i k (h.2 i (sym (known i) ∙ m) s) (least k (known k ∙ h.0) h.1)),
      )
