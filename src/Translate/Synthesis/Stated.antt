-- ===== src/Translate/Synthesis/Stated.antt =====
-- What the spec of an entity states of its class, said without the tables and helpers that
-- arango_sparql/translate/resolver.py writes annotations with.
use arango_sparql_py.Base.{
  ◌≡◌, Bool, true, false, Option, none, some, List, [], ◌∷◌, String, refl, ap, ◌∙◌,
}
use arango_sparql_py.Base.Tests.{if◌then◌else◌}
use arango_sparql_py.Base.Eq.{◌==◌, nat_eq, list_eq}
use arango_sparql_py.Base.Lists.{any, contains}
use arango_sparql_py.Base.Dict.{Dict, get}
use arango_sparql_py.Base.Json.{Json, truthy, or_null}
use arango_sparql_py.Base.Str.{Str, codes}
use arango_sparql_py.Translate.Synthesis.{
  entity_annotations, str, or_word, collection_text, not_null,
}
use arango_sparql_py.Translate.Synthesis.Annotated.{written}
use Json.{null, boolean, integer, float, text, array, object}

-- the annotations that a spec gives as they are
abbrev pub is_annotation : Str → Bool
is_annotation n =
    any (λ (name : String). codes name == n)
      ("typeField" ∷ "typeValue" ∷ "typeFieldIsArray" ∷ "triplesCollection" ∷ "subjectColumn"
        ∷ "predicateColumn" ∷ "objectUriColumn" ∷ "objectValueColumn" ∷ "tenantField"
        ∷ "tenantEntity" ∷ "labelsField" ∷ "labelValue" ∷ [])

branches :
    (a b c d : Bool) {v v' u u' : Option Str} {w w' : Str}
    → v ≡ v'
    → w ≡ w'
    → c ≡ d
    → u ≡ u'
    → (if a then v else if b then some w else if c then u else none)
      ≡ (if a then v' else if b then some w' else if d then u' else none)
branches a b c d e f g h = cc (e, f, g, h)

is_annotation-contains : (n : Str) → contains n entity_annotations ≡ is_annotation n
is_annotation-contains n = refl

module _ (repr : Json → Str) (dumps : List Str → Str) where
  -- a value that is given and is not null, as a text
  abbrev pub given_value : Option Json → Option Str
  given_value none = none
  given_value (some null) = none
  given_value (some j) = some (str repr dumps j)

  -- the text of a value that is given and counts as true, and `d` if there is none
  abbrev pub word_or : Str → Option Json → Str
  word_or d none = d
  word_or d (some j) = if truthy j then str repr dumps j else d

  abbrev pub name_or : Option Str → Option Json → Option Str
  name_or d none = d
  name_or d (some j) = if truthy j then some (str repr dumps j) else d

  abbrev pub stated_style : Dict Str Json → Str
  stated_style spec = word_or (codes "COLLECTION") (get (codes "style") spec)

  abbrev pub triples_of : Dict Str Json → Str
  triples_of spec = word_or (codes "_triples") (get (codes "triplesCollection") spec)

  -- the collection that is named, and for a class in a table of triples that table if none is
  abbrev pub stated_collection : Dict Str Json → Option Str
  stated_collection spec =
      name_or (if stated_style spec == codes "RPT" then some (triples_of spec) else none)
        (get (codes "collectionName") spec)

  -- The annotation of a class that the spec of its entity states.
  abbrev pub stated : Dict Str Json → Str → Option Str
  stated spec n =
      if n == codes "collectionName"
      then stated_collection spec
      else if n == codes "mappingStyle"
      then some (stated_style spec)
      else if is_annotation n
      then given_value (get n spec)
      else none

  or_word-word_or :
      (d : String) (o : Option Json) → or_word repr dumps (or_null o) d ≡ word_or (codes d) o
  unfolding truthy
  or_word-word_or d none = refl
  or_word-word_or d (some j) = refl

  not_null-given_value : (o : Option Json) → not_null repr dumps o ≡ given_value o
  not_null-given_value none = refl
  not_null-given_value (some null) = refl
  not_null-given_value (some (boolean b)) = refl
  not_null-given_value (some (integer n)) = refl
  not_null-given_value (some (float s)) = refl
  not_null-given_value (some (text s)) = refl
  not_null-given_value (some (array js)) = refl
  not_null-given_value (some (object fs)) = refl

  collection_text-name_or :
      (named : Option Json) (b : Bool) (triples : Option Json)
      → collection_text repr dumps (or_null named) b (or_null triples)
        ≡ name_or (if b then some (word_or (codes "_triples") triples) else none) named
  unfolding truthy
  collection_text-name_or none true t = ap some (or_word-word_or "_triples" t)
  collection_text-name_or none false t = refl
  collection_text-name_or (some j) true t =
      ap (λ u. if truthy j then some (str repr dumps j) else some u) (or_word-word_or "_triples" t)
  collection_text-name_or (some j) false t = refl

  pub written-stated : (spec : Dict Str Json) (n : Str) → written repr dumps spec n ≡ stated spec n
  written-stated spec n =
      branches (n == codes "collectionName") (n == codes "mappingStyle")
        (contains n entity_annotations) (is_annotation n)
        (ap
            (λ style.
              collection_text repr dumps (or_null (get (codes "collectionName") spec))
                (style == codes "RPT") (or_null (get (codes "triplesCollection") spec)))
            (or_word-word_or "COLLECTION" (get (codes "style") spec))
          ∙ collection_text-name_or (get (codes "collectionName") spec)
              (stated_style spec == codes "RPT") (get (codes "triplesCollection") spec))
        (or_word-word_or "COLLECTION" (get (codes "style") spec)) (is_annotation-contains n)
        (not_null-given_value (get n spec))
