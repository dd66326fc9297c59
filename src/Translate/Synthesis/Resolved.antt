-- ===== src/Translate/Synthesis/Resolved.antt =====
-- What a class is that arango_sparql/translate/resolver.py resolves by its annotations, said field by
-- field, where `look` gives the annotations.
use arango_sparql_py.Base.{◌≡◌, true, ◌⊎◌, Option, none, some, String, refl, inl, inr, ap}
use arango_sparql_py.Base.Tests.{Bool-cases}
use arango_sparql_py.Base.Eq.{◌==◌, nat_eq, list_eq, eq_iff}
use arango_sparql_py.Base.Str.{Str, codes}
use arango_sparql_py.Errors.{Result}
use arango_sparql_py.Translate.Resolver.{
  or_default, is_label_style, is_style, known_style, labelled, untested_class, stored_class,
  styled_class, declared_class,
}
use arango_sparql_py.Translate.Resolver.Classes.{ResolvedClass, Config}
use Result.{ok, err}

-- What holds of the class, if one is resolved.
abbrev pub AllOk : (ResolvedClass → Type 0) → Result ResolvedClass → Type 0
AllOk P (ok c) = P c
AllOk P (err e) = Unit

-- a given name, and `d` if there is none
abbrev pub given_or : Str → Option Str → Str
given_or d none = d
given_or d (some s) = s

or_default-given_or : (d : Str) (o : Option Str) → or_default d o ≡ given_or d o
or_default-given_or d none = refl
or_default-given_or d (some s) = refl

is_style-some : (name : String) (o : Option Str) → is_style name o ≡ true → o ≡ some (codes name)
is_style-some name none e = absurd (cc e)
is_style-some name (some s) e = ap some ((eq_iff s (codes name)).0 e)

module _ (look : String → Option Str) where
  abbrev pub HasLabels : ResolvedClass → Type 0
  HasLabels c =
      ((c.style ≡ some (codes "LABELS")) ⊎ (c.style ≡ some (codes "MULTI_LABEL")))
      × (c.type_field ≡ look "labelsField")
      × (c.type_field_is_array ≡ some true)

  abbrev pub HasType : ResolvedClass → Type 0
  HasType c = (c.type_field ≡ look "typeField") × (c.type_value ≡ look "typeValue")

  abbrev pub HasColumns : ResolvedClass → Type 0
  HasColumns c =
      (c.subject_column ≡ given_or (codes "subject_uri") (look "subjectColumn"))
      × (c.predicate_column ≡ given_or (codes "predicate") (look "predicateColumn"))
      × (c.object_uri_column ≡ given_or (codes "object_uri") (look "objectUriColumn"))
      × (c.object_value_column ≡ given_or (codes "object_value") (look "objectValueColumn"))

  -- the collection that is named, if one is, with the columns and the type test
  abbrev pub IsStored : ResolvedClass → Type 0
  IsStored c =
      ((look "collectionName" ≡ some c.collection) ⊎ (look "collectionName" ≡ none))
      × HasColumns c
      × (HasLabels c ⊎ HasType c)

  -- A class has its style and its tenant's annotations, and is a supertype or stored somewhere.
  abbrev pub IsAnnotated : Str → ResolvedClass → Type 0
  IsAnnotated k c =
      (c.class_iri ≡ k)
      × (c.style ≡ look "mappingStyle")
      × (c.tenant_field ≡ look "tenantField")
      × (c.tenant_entity ≡ look "tenantEntity")
      × ((c.style ≡ some (codes "UNION")) ⊎ IsStored c)

  label_styles :
      (o : Option Str)
      → is_label_style o ≡ true
      → (o ≡ some (codes "LABELS")) ⊎ (o ≡ some (codes "MULTI_LABEL"))
  label_styles none e = absurd (cc e)
  label_styles (some s) e = elim (Bool-cases (s == codes "LABELS")) [
    | inl labels ↦ inl (ap some ((eq_iff s (codes "LABELS")).0 labels))
    | inr other ↦ inr (ap some ((eq_iff s (codes "MULTI_LABEL")).0 (rw other at e)))
  ]

  module _ (cfg : Config) (k : Str) where
    columns :
        (style : Option Str) (collection : Str)
        → HasColumns (untested_class look cfg k style collection)
    columns style collection = (
      or_default-given_or (codes "subject_uri") (look "subjectColumn"),
      or_default-given_or (codes "predicate") (look "predicateColumn"),
      or_default-given_or (codes "object_uri") (look "objectUriColumn"),
      or_default-given_or (codes "object_value") (look "objectValueColumn"),
    )

    stored-IsAnnotated :
        (style : Option Str) (collection : Str)
        → style ≡ look "mappingStyle"
        → (look "collectionName" ≡ some collection) ⊎ (look "collectionName" ≡ none)
        → AllOk (IsAnnotated k) (stored_class look cfg k style collection)
    stored-IsAnnotated style collection same place = elim (Bool-cases (is_label_style style)) [
      | inr other ↦
          rw other (refl, same, refl, refl, inr (place, columns style collection, inr (refl, refl)))
      | inl labels ↦ rw labels (with_labels (look "labelsField") refl (label_styles style labels))
    ]
      where
        with_labels :
            (o : Option Str)
            → o ≡ look "labelsField"
            → (style ≡ some (codes "LABELS")) ⊎ (style ≡ some (codes "MULTI_LABEL"))
            → AllOk (IsAnnotated k) (labelled look k (untested_class look cfg k style collection) o)
        with_labels none e s = tt
        with_labels (some f) e s =
            (refl, same, refl, refl, inr (place, columns style collection, inl (s, e, refl)))

    pub declared_class-IsAnnotated :
        AllOk (IsAnnotated k) (declared_class look cfg k (look "mappingStyle")).1
    declared_class-IsAnnotated = elim (Bool-cases (known_style (look "mappingStyle"))) [
      | inr unknown ↦ rw unknown tt
      | inl known ↦ elim (Bool-cases (is_style "UNION" (look "mappingStyle"))) [
        | inl union ↦ rw known (
            rw union
              (refl, refl, refl, refl, inl (is_style-some "UNION" (look "mappingStyle") union)))
        | inr single ↦ rw known (rw single (styled (look "collectionName") refl))
      ]
    ]
      where
        styled :
            (o : Option Str)
            → look "collectionName" ≡ o
            → AllOk (IsAnnotated k) (styled_class look cfg k (look "mappingStyle") o).1
        styled none e = stored-IsAnnotated (look "mappingStyle") _ refl (inr e)
        styled (some s) e = stored-IsAnnotated (look "mappingStyle") s refl (inl e)
