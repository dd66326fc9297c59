-- ===== src/Translate/Resolver/Surveys/Styles.antt =====
-- What a class that arango_sparql/translate/resolver.py resolves keeps of its annotations, by its style.
use arango_sparql_py.Base.{
  ◌≡◌, ◌⊎◌, Bool, true, false, Option, none, some, ◌∷◌, String, refl, inl, inr, arith, ℕ,
}
use arango_sparql_py.Base.Tests.{Bool-cases}
use arango_sparql_py.Base.Eq.{◌==◌, nat_eq, list_eq, eq_iff}
use arango_sparql_py.Base.Str.{Str, codes}
use arango_sparql_py.Errors.{Error, Result}
use arango_sparql_py.Translate.Resolver.{
  is_style, is_label_style, known_style, labelled, type_tested, declared_class, styled_class,
  untested_class, unnamed_collection,
}
use arango_sparql_py.Translate.Resolver.Classes.{ResolvedClass, Config}
use arango_sparql_py.Translate.Resolver.Surveys.{is_rpt, is_guarded}
use Error.{schema_error}
use Result.{ok, err}

-- A resolution returns a class, or it fails with the schema error.
abbrev pub ReturnsOrRefuses : Result ResolvedClass → Type 0
ReturnsOrRefuses q = ((c : ResolvedClass) × (q ≡ ok c)) ⊎ (q ≡ err schema_error)

abbrev pub Guards : Str → Str → Str → Bool → ResolvedClass → Type 0
Guards k collection tenant rpt c =
    (c.class_iri ≡ k)
    × (c.collection ≡ collection)
    × (c.tenant_field ≡ some tenant)
    × (is_rpt c ≡ rpt)

module _ (look : String → Option Str) (k : Str) where
  pub type_tested-ReturnsOrRefuses : (c : ResolvedClass) → ReturnsOrRefuses (type_tested look k c)
  type_tested-ReturnsOrRefuses c = elim (Bool-cases (is_label_style c.style)) [
    | inl labels ↦ rw labels (of_labels c (look "labelsField"))
    | inr plain ↦ rw plain (inl (_, refl))
  ]
    where
      of_labels : (c : ResolvedClass) (o : Option Str) → ReturnsOrRefuses (labelled look k c o)
      of_labels c none = inr refl
      of_labels c (some labels) = inl (_, refl)

  pub type_tested-keeps :
      (c d : ResolvedClass)
      → type_tested look k c ≡ ok d
      → (d.class_iri ≡ c.class_iri)
        × (d.collection ≡ c.collection)
        × (d.tenant_field ≡ c.tenant_field)
        × (d.style ≡ c.style)
  type_tested-keeps c d e = elim (Bool-cases (is_label_style c.style)) [
    | inl labels ↦ of_labels c (look "labelsField") d (rw labels at e)
    | inr plain ↦ ground (arith, rw plain at e)
  ]
    where
      of_labels :
          (c : ResolvedClass) (o : Option Str) (d : ResolvedClass)
          → labelled look k c o ≡ ok d
          → (d.class_iri ≡ c.class_iri)
            × (d.collection ≡ c.collection)
            × (d.tenant_field ≡ c.tenant_field)
            × (d.style ≡ c.style)
      of_labels c none d e = absurd (cc e)
      of_labels c (some labels) d e = ground arith

  pub type_tested-label :
      (c : ResolvedClass) → type_tested look k c ≡ err schema_error → is_label_style c.style ≡ true
  type_tested-label c e = ground arith

  pub label_is_no_table :
      (style : Option Str) → is_label_style style ≡ true → is_style "RPT" style ≡ false
  label_is_no_table none h = refl
  label_is_no_table (some s) h = elim (Bool-cases (s == codes "RPT")) [
    | inl rpt ↦ absurd (cc (rw ((eq_iff s (codes "RPT")).0 rpt) at h))
    | inr other ↦ other
  ]

  pub unknown_is_no_table :
      (style : Option Str) → known_style style ≡ false → is_style "RPT" style ≡ false
  unknown_is_no_table none h = refl
  unknown_is_no_table (some s) h = elim (Bool-cases (s == codes "RPT")) [
    | inl rpt ↦ absurd (cc (rw ((eq_iff s (codes "RPT")).0 rpt) at h))
    | inr other ↦ other
  ]

  module _ (cfg : Config) (style : Option Str) where
    pub declared-ReturnsOrRefuses : ReturnsOrRefuses (declared_class look cfg k style).1
    declared-ReturnsOrRefuses = elim (Bool-cases (known_style style)) [
      | inr unknown ↦ rw unknown (inr refl)
      | inl known ↦ elim (Bool-cases (is_style "UNION" style)) [
        | inl union ↦ rw (known, union) (inl (_, refl))
        | inr stored ↦ rw (known, stored) (of_name (look "collectionName"))
      ]
    ]
      where
        of_name : (o : Option Str) → ReturnsOrRefuses (styled_class look cfg k style o).1
        of_name none =
            type_tested-ReturnsOrRefuses
              (untested_class look cfg k style (unnamed_collection look k style))
        of_name (some n) = type_tested-ReturnsOrRefuses (untested_class look cfg k style n)

    module _ (x y : ℕ) (t n : Str) (guarded : look "tenantField" ≡ some (x ∷ t))
        (stored : look "collectionName" ≡ some (y ∷ n))
        (concrete : is_style "UNION" style ≡ false) where
      pub declared-Guards :
          (c : ResolvedClass)
          → (declared_class look cfg k style).1 ≡ ok c
          → Guards k (y ∷ n) (x ∷ t) (is_style "RPT" style) c × (is_guarded c ≡ true)
      declared-Guards c e = elim (Bool-cases (known_style style)) [
        | inr unknown ↦ absurd (cc (rw unknown at e))
        | inl known ↦
            let kept =
              type_tested-keeps (untested_class look cfg k style (y ∷ n)) c
                (rw (known, concrete, stored) at e) in
            ground (arith, kept)
      ]

      pub refused_is_no_table :
          (declared_class look cfg k style).1 ≡ err schema_error → is_style "RPT" style ≡ false
      refused_is_no_table e = elim (Bool-cases (known_style style)) [
        | inr unknown ↦ unknown_is_no_table style unknown
        | inl known ↦ label_is_no_table style (
            type_tested-label (untested_class look cfg k style (y ∷ n))
              (rw (known, concrete, stored) at e))
      ]
