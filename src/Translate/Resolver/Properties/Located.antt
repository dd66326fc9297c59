-- ===== src/Translate/Resolver/Properties/Located.antt =====
-- Where a property of arango_sparql/translate/resolver.py is read: at its path, or at its attribute.
use arango_sparql_py.Base.{
  arith, ◌≡◌, true, false, ◌||◌, ◌⊎◌, map, subst, Option, none, some, List, [], ◌∷◌, refl, sym, ap,
  ◌∙◌, inl, inr,
}
use arango_sparql_py.Base.Tests.{Bool-cases}
use arango_sparql_py.Base.Json.{Json, Items, items, as_items, entries, as_fields, dict}
use arango_sparql_py.Base.Str.{Str, codes}
use arango_sparql_py.Base.Eq.{nat_eq, list_eq}
use arango_sparql_py.Base.Dict.{get}
use arango_sparql_py.Base.Lists.{is_nil}
use arango_sparql_py.Errors.{Error, Result, ◌>>=◌, ok_of_bind, ok_same}
use arango_sparql_py.Mapping.Names.{
  property_field_path, located, path_segments, valid_segments, is_valid_field_name,
}
use arango_sparql_py.Translate.Rdf.{Rdf}
use arango_sparql_py.Translate.Resolver.{local_name, or_text, physical_string, has_type}
use arango_sparql_py.Translate.Resolver.Properties.{
  ResolvedProperty, field_path, attribute_path, path_of, decoded_path, path_or_error,
  reified_has_edge, declared_property, resolve_property,
}
use Json.{null, boolean, integer, float, text, array, object}
use Items.{nil, cons}
use Error.{assertion_error}
use Result.{ok, err}

-- The names that a JSON value is an array of, at least one.
abbrev pub IsPath : Json → List Str → Type 0
IsPath j names = (j ≡ array (as_items (map text names))) × (is_nil names ≡ false)

abbrev IsSomePath : Json → Option (List Str) → Type 0
IsSomePath j none = ⊥
IsSomePath j (some names) = IsPath j names

-- the one name of a property without a path: a non-empty one that is given, or the local name
abbrev pub IsNamed : Str → Option Str → List Str → Type 0
IsNamed k none names = names ≡ local_name k ∷ []
IsNamed k (some []) names = names ≡ local_name k ∷ []
IsNamed k (some (c ∷ s)) names = names ≡ (c ∷ s) ∷ []

-- where a value is, of an attribute and the names of a path
abbrev location : Str → Option (List Str) → List Str
location attribute none = attribute ∷ []
location attribute (some names) = names

pair_path : {a b c d : Option Str} → a ≡ b → c ≡ d → ◌≡◌ {A = Option Str × Option Str} (a, c) (b, d)
pair_path e f = cc

reified_has_edge-same : (p q : ResolvedProperty) → reified_has_edge p ≡ ok q → p ≡ q
reified_has_edge-same p q e = ground arith

as_items-items : (js : Items) → as_items (items js) ≡ js
unfolding as_items items
as_items-items nil = refl
as_items-items (cons j js) = ap (λ x. cons j x) (as_items-items js)

segments-texts : (js : List Json) (ss : List Str) → valid_segments js ≡ ok ss → js ≡ map text ss
unfolding valid_segments
segments-texts [] ss e = ap (map text) (ok_same [] ss e)
segments-texts (text s ∷ js) ss e = elim (Bool-cases (is_valid_field_name (text s))) [
  | inl valid ↦
      let (rest, first, second) =
        ok_of_bind (valid_segments js) (λ rest. ok (s ∷ rest)) ss (rw valid at e) in
      ap (λ x. text s ∷ x) (segments-texts js rest first)
      ∙ ap (map text) (ok_same (s ∷ rest) ss second)
  | inr bad ↦ absurd (cc (e, bad))
]
segments-texts (null ∷ js) ss e = absurd (cc e)
segments-texts (boolean b ∷ js) ss e = absurd (cc e)
segments-texts (integer n ∷ js) ss e = absurd (cc e)
segments-texts (float s ∷ js) ss e = absurd (cc e)
segments-texts (array xs ∷ js) ss e = absurd (cc e)
segments-texts (object fs ∷ js) ss e = absurd (cc e)

filled-IsPath :
    (j : Json) (js : Items) (ss : List Str)
    → j ∷ items js ≡ map text ss
    → IsPath (array (cons j js)) ss
unfolding as_items items
filled-IsPath j js [] e = absurd (cc e)
filled-IsPath j js (s ∷ ss) e = (ap array (sym (as_items-items (cons j js)) ∙ ap as_items e), refl)

path_segments-IsSomePath :
    (j : Json) (names : Option (List Str)) → path_segments j ≡ ok names → IsSomePath j names
path_segments-IsSomePath (array (cons j js)) names e =
    let (ss, first, second) =
      ok_of_bind (valid_segments (j ∷ items js)) (λ path. ok (some path)) names e in
    subst (IsSomePath (array (cons j js))) (ok_same (some ss) names second)
      (filled-IsPath j js ss (segments-texts (j ∷ items js) ss first))
path_segments-IsSomePath (array nil) names e = absurd (cc e)
path_segments-IsSomePath null names e = absurd (cc e)
path_segments-IsSomePath (boolean b) names e = absurd (cc e)
path_segments-IsSomePath (integer n) names e = absurd (cc e)
path_segments-IsSomePath (float s) names e = absurd (cc e)
path_segments-IsSomePath (text s) names e = absurd (cc e)
path_segments-IsSomePath (object fs) names e = absurd (cc e)

path_or_error-same :
    (q : Result (Option (List Str))) (names : Option (List Str))
    → path_or_error q ≡ ok names
    → q ≡ ok names
path_or_error-same (ok (some ss)) names e = e
path_or_error-same (ok none) names e = absurd (cc e)
path_or_error-same (err x) names e = absurd (cc e)

wrapped : Json → Json
wrapped segments = dict ((codes "path", segments) ∷ [])

wrapped-located : (j : Json) → property_field_path (wrapped j) ≡ located null j
unfolding wrapped property_field_path get entries as_fields
wrapped-located j = refl

located-IsSomePath :
    (j : Json) (names : Option (List Str))
    → path_or_error (located null j) ≡ ok names
    → IsSomePath j names
located-IsSomePath (array js) names e =
    path_segments-IsSomePath (array js) names
      (path_or_error-same (path_segments (array js)) names e)
located-IsSomePath null names e = absurd (cc e)
located-IsSomePath (boolean b) names e = absurd (cc e)
located-IsSomePath (integer n) names e = absurd (cc e)
located-IsSomePath (float s) names e = absurd (cc e)
located-IsSomePath (text s) names e = absurd (cc e)
located-IsSomePath (object fs) names e = absurd (cc e)

decoded-null : decoded_path (some null) ≡ err assertion_error
unfolding wrapped
decoded-null = ap path_or_error (wrapped-located null)

module _ (r : Rdf) (g : r.Graph) (loads : Str → Option Json) where
  -- Where a declared property is read: at its name, or at its path if it has one.
  abbrev pub IsReadAt : Str → List Str → Type 0
  IsReadAt k names =
      ((physical_string r g k "attributePath" ≡ none)
        × IsNamed k (physical_string r g k "attributeName") names)
      ⊎ ((raw : Str) × (physical_string r g k "attributePath" ≡ some raw)
          × (physical_string r g k "attributeName" ≡ none)
          × (j : Json) × (loads raw ≡ some j)
          × IsPath j names)

  or_text-IsNamed :
      (k : Str) (named : Option Str) → IsNamed k named (or_text (local_name k) named ∷ [])
  or_text-IsNamed k none = refl
  or_text-IsNamed k (some []) = refl
  or_text-IsNamed k (some (c ∷ s)) = refl

  field_path-location :
      (k : Str) (names : Option (List Str))
      → ((ss : List Str) → names ≡ some ss → is_nil ss ≡ false)
      → field_path (declared_property r g loads k names)
        ≡ location (or_text (local_name k) (physical_string r g k "attributeName")) names
  unfolding field_path
  field_path-location k none h = refl
  field_path-location k (some []) h = absurd (cc (h [] refl))
  field_path-location k (some (n ∷ [])) h = refl
  field_path-location k (some (n ∷ m ∷ ns)) h = ground arith

  declared-result :
      (k : Str)
      → (has_type r g k "ObjectProperty" || has_type r g k "DatatypeProperty") ≡ true
      → (resolve_property r g loads k).1 ≡ (
          attribute_path r g loads k >>= λ names.
          reified_has_edge (declared_property r g loads k names))
  unfolding resolve_property
  declared-result k d = rw d refl

  decoded-IsSomePath :
      (raw : Str) (o : Option Json) (names : Option (List Str))
      → loads raw ≡ o
      → decoded_path o ≡ ok names
      → (j : Json) × (loads raw ≡ some j) × IsSomePath j names
  unfolding wrapped
  decoded-IsSomePath raw none names l e = absurd (cc e)
  decoded-IsSomePath raw (some j) names l e =
      (j, l, located-IsSomePath j names (sym (ap path_or_error (wrapped-located j)) ∙ e))

  path_of-IsReadAt :
      (k : Str) (a named : Option Str) (names : Option (List Str))
      → physical_string r g k "attributePath" ≡ a
      → physical_string r g k "attributeName" ≡ named
      → path_of r g loads a named ≡ ok names
      → IsReadAt k (location (or_text (local_name k) named) names)
        × ((ss : List Str) → names ≡ some ss → is_nil ss ≡ false)
  path_of-IsReadAt k none named names ea en e =
      let same : none ≡ names = ok_same none names e in
      (
        inl (
          ea,
          subst (λ o. IsNamed k o (location (or_text (local_name k) named) names)) (sym en)
              (subst (λ o. IsNamed k named (location (or_text (local_name k) named) o)) same
                (or_text-IsNamed k named)),
        ),
        λ ss h. absurd (cc (same, h)),
      )
  path_of-IsReadAt k (some raw) (some name) names ea en e = absurd (cc e)
  path_of-IsReadAt k (some raw) none none ea en e =
      let (j, l, no_path) = decoded-IsSomePath raw (loads raw) none refl e in elim no_path [ ]
  path_of-IsReadAt k (some raw) none (some ss) ea en e =
      let (j, l, path) = decoded-IsSomePath raw (loads raw) (some ss) refl e in
      (inr (raw, ea, en, j, l, path), λ ts h. cc (path.1, h))

  attribute_path-IsReadAt :
      (k : Str) (names : Option (List Str))
      → attribute_path r g loads k ≡ ok names
      → IsReadAt k (location (or_text (local_name k) (physical_string r g k "attributeName")) names)
        × ((ss : List Str) → names ≡ some ss → is_nil ss ≡ false)
  unfolding attribute_path
  attribute_path-IsReadAt k names e =
      path_of-IsReadAt k (physical_string r g k "attributePath")
        (physical_string r g k "attributeName") names refl refl e

  -- A property that the ontology declares, if it resolves, is read either at its `phys:attributeName`,
  -- or its local name if that is missing or empty, and then has no `phys:attributePath`, or at the names
  -- that its `phys:attributePath` is a JSON array of, at least one, and then has no
  -- `phys:attributeName`.
  pub field_path-resolve_property :
      (k : Str) (p : ResolvedProperty)
      → (has_type r g k "ObjectProperty" || has_type r g k "DatatypeProperty") ≡ true
      → (resolve_property r g loads k).1 ≡ ok p
      → IsReadAt k (field_path p)
  field_path-resolve_property k p d e =
      let (names, first, second) =
        ok_of_bind (attribute_path r g loads k)
          (λ names. reified_has_edge (declared_property r g loads k names)) p
          (sym (declared-result k d) ∙ e) in
      let same = reified_has_edge-same (declared_property r g loads k names) p second in
      let (read, filled) = attribute_path-IsReadAt k names first in
      subst (IsReadAt k) (sym (field_path-location k names filled) ∙ ap field_path same) read

  null_path :
      (k raw : Str)
      → physical_string r g k "attributePath" ≡ some raw
      → physical_string r g k "attributeName" ≡ none
      → loads raw ≡ some null
      → attribute_path r g loads k ≡ err assertion_error
  unfolding attribute_path
  null_path k raw e n l =
      ap {A = Option Str × Option Str} {B = Result (Option (List Str))}
        (λ x. path_of r g loads x.0 x.1) {y = (some raw, none)} (pair_path e n)
      ∙ ap decoded_path l
      ∙ decoded-null

  -- A property whose `phys:attributePath` is JSON's null fails an assertion, and is no schema error.
  pub null_path_fails :
      (k raw : Str)
      → (has_type r g k "ObjectProperty" || has_type r g k "DatatypeProperty") ≡ true
      → physical_string r g k "attributePath" ≡ some raw
      → physical_string r g k "attributeName" ≡ none
      → loads raw ≡ some null
      → (resolve_property r g loads k).1 ≡ err assertion_error
  null_path_fails k raw d e n l =
      declared-result k d
      ∙ ap {A = Result (Option (List Str))} {B = Result ResolvedProperty}
          (λ x. x >>= λ names. reified_has_edge (declared_property r g loads k names))
          (null_path k raw e n l)
