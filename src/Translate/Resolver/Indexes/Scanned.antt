-- ===== src/Translate/Resolver/Indexes/Scanned.antt =====
-- Which copy checks scan a collection, as arango_sparql/translate/resolver.py's analysis of a mapping
-- says and as the mapping itself does.
use arango_sparql_py.Base.{
  ◌≡◌, Bool, true, false, not, ◌&&◌, ◌||◌, Option, none, some, List, [], ◌∷◌, sym, ap, ◌∙◌, subst,
  inl, inr, arith,
}
use mathlib.Core.Path.{fun_ext}
use arango_sparql_py.Base.Tests.{Bool-cases}
use arango_sparql_py.Base.Eq.{◌==◌, nat_eq, list_eq}
use arango_sparql_py.Base.Lists.{any, contains}
use arango_sparql_py.Base.Dict.{Dict, get}
use arango_sparql_py.Base.Json.{Json, entries}
use arango_sparql_py.Base.Str.{Str, codes}
use arango_sparql_py.Errors.{Result, ◌>>=◌, ok_of_bind, ok_same}
use arango_sparql_py.Mapping.{MappingBundle, entities}
use arango_sparql_py.Translate.Synthesis.{iterated_or_none}
use arango_sparql_py.Translate.Resolver.Indexes.{
  UriIndexes, scanned, records_indexes, indexes_uri, any_indexes_uri, maps_uri, noted, entity_noted,
  with_entity, collection_named, noted_all, nothing_noted, some_indexes, analyze_uri_indexes,
}
use Json.{null, boolean, integer, float, text, array, object}
use Result.{ok, err}

-- What the spec of an entity says.
abbrev pub is_name : Str → Option Str → Bool
is_name c none = false
is_name c (some s) = s == c

abbrev pub truth : Result Bool → Bool
truth (ok b) = b
truth (err e) = false

abbrev pub list_or_none : Result (List Json) → List Json
list_or_none (ok js) = js
list_or_none (err e) = []

abbrev pub index_listed : Dict Str Json → Bool
index_listed entity =
    any (λ i. truth (indexes_uri i))
      (list_or_none (iterated_or_none (get (codes "indexes") entity)))

abbrev pub is_stored : Str → Json → Bool
is_stored c (object fs) = is_name c (collection_named (entries fs))
is_stored c _ = false

abbrev pub stores_uri : Str → Json → Bool
stores_uri c (object fs) =
    is_name c (collection_named (entries fs)) && maps_uri (get (codes "properties") (entries fs))
stores_uri c _ = false

abbrev pub has_index : Str → Json → Bool
has_index c (object fs) = is_name c (collection_named (entries fs)) && index_listed (entries fs)
has_index c _ = false

any_indexes_uri-truth :
    (js : List Json) (b : Bool)
    → any_indexes_uri js ≡ ok b
    → any (λ i. truth (indexes_uri i)) js ≡ b
unfolding any_indexes_uri
any_indexes_uri-truth [] b e = ok_same false b e
any_indexes_uri-truth (j ∷ js) b e =
    let (here, first, after) =
      ok_of_bind (indexes_uri j) (λ here. any_indexes_uri js >>= λ later. ok (here || later)) b e in
    let (later, second, last) =
      ok_of_bind (any_indexes_uri js) (λ later. ok (here || later)) b after in
    rw (first, any_indexes_uri-truth js later second) (ok_same (here || later) b last)

-- what one more entity adds, of a collection
abbrev Adds : Str → Bool → Bool → Bool → UriIndexes → UriIndexes → Type 0
Adds c is_there carries is_indexed u v =
    (contains c v.collections ≡ (contains c u.collections || is_there))
    × (contains c v.carrying ≡ (contains c u.carrying || carries))
    × (contains c v.indexed ≡ (contains c u.indexed || is_indexed))

contains-noted :
    (c s : Str) (test : Bool) (cs : List Str)
    → contains c (noted test s cs) ≡ (contains c cs || (s == c && test))
contains-noted c s test cs = ground arith

Adds-nothing : (c : Str) (u v : UriIndexes) → u ≡ v → Adds c false false false u v
Adds-nothing c u v e =
    subst (Adds c false false false u) e (ground arith, ground arith, ground arith)

Adds-both :
    (c : Str) (p q r p' q' r' : Bool) (u m v : UriIndexes)
    → Adds c p q r u m
    → Adds c p' q' r' m v
    → Adds c (p || p') (q || q') (r || r') u v
Adds-both c p q r p' q' r' u m v (a, b, d) (a', b', d') =
    (ground (arith, a, a'), ground (arith, b, b'), ground (arith, d, d'))

entity_noted-Adds :
    (c : Str) (entity : Dict Str Json) (o : Option Str) (u v : UriIndexes)
    → entity_noted entity o u ≡ ok v
    → Adds c
        (is_name c o)
        (is_name c o && maps_uri (get (codes "properties") entity))
        (is_name c o && index_listed entity)
        u
        v
entity_noted-Adds c entity none u v e = Adds-nothing c u v (ok_same u v e)
entity_noted-Adds c entity (some s) u v e =
    let found = with_entity entity s u in
    let (js, first, after) =
      ok_of_bind (iterated_or_none (get (codes "indexes") entity))
        (λ js. any_indexes_uri js >>= λ b. ok (found b)) v e in
    let (b, second, last) = ok_of_bind (any_indexes_uri js) (λ b. ok (found b)) v after in
    let listed : index_listed entity ≡ b =
      ap (λ q. any (λ i. truth (indexes_uri i)) (list_or_none q)) first
      ∙ any_indexes_uri-truth js b second in
    subst
      (λ w.
        Adds c (s == c) (s == c && maps_uri (get (codes "properties") entity))
          (s == c && index_listed entity) u w)
      (ok_same (found b) v last)
      (
        contains-noted c s true u.collections ∙ ground arith,
        contains-noted c s (maps_uri (get (codes "properties") entity)) u.carrying,
        contains-noted c s b u.indexed
            ∙ ap (λ x. contains c u.indexed || (s == c && x)) (sym listed),
      )

noted_all-Adds :
    (c : Str) (d : Dict Str Json) (u v : UriIndexes)
    → noted_all d u ≡ ok v
    → Adds c
        (any (λ e. is_stored c e.1) d)
        (any (λ e. stores_uri c e.1) d)
        (any (λ e. has_index c e.1) d)
        u
        v
unfolding noted_all
noted_all-Adds c [] u v e = Adds-nothing c u v (ok_same u v e)
noted_all-Adds c ((name, object fs) ∷ d) u v e =
    let (m, first, after) =
      ok_of_bind (entity_noted (entries fs) (collection_named (entries fs)) u) (noted_all d) v e in
    Adds-both c (is_stored c (object fs)) (stores_uri c (object fs)) (has_index c (object fs))
      (any (λ e. is_stored c e.1) d) (any (λ e. stores_uri c e.1) d) (any (λ e. has_index c e.1) d)
      u m v (entity_noted-Adds c (entries fs) (collection_named (entries fs)) u m first)
      (noted_all-Adds c d m v after)
noted_all-Adds c ((name, null) ∷ d) u v e = noted_all-Adds c d u v e
noted_all-Adds c ((name, boolean b) ∷ d) u v e = noted_all-Adds c d u v e
noted_all-Adds c ((name, integer n) ∷ d) u v e = noted_all-Adds c d u v e
noted_all-Adds c ((name, float s) ∷ d) u v e = noted_all-Adds c d u v e
noted_all-Adds c ((name, text s) ∷ d) u v e = noted_all-Adds c d u v e
noted_all-Adds c ((name, array js) ∷ d) u v e = noted_all-Adds c d u v e

-- Where a mapping's indexes are analyzed, a copy check is said to scan a collection exactly when an
-- entity of the mapping is stored there, none that is lists an equality index whose first field is
-- `_uri`, and one of the later collections is that of an entity with a property in `_uri`.
pub scanned-analyze_uri_indexes :
    (b : MappingBundle) (u : UriIndexes)
    → analyze_uri_indexes (some b) ≡ ok (some u)
    → (earlier : Str) (later : List Str)
    → scanned u earlier later ≡ (
        any (λ e. is_stored earlier e.1) (entities b)
        && not (any (λ e. has_index earlier e.1) (entities b))
        && any (λ c. any (λ e. stores_uri c e.1) (entities b)) later)
unfolding analyze_uri_indexes scanned
scanned-analyze_uri_indexes b u e earlier later = elim (Bool-cases (records_indexes b)) [
  | inr unrecorded ↦ absurd (cc (rw unrecorded at e))
  | inl recorded ↦
      let (v, first, last) =
        ok_of_bind (noted_all (entities b) nothing_noted) some_indexes (some u)
          (rw recorded at e) in
      let all_noted =
        subst (λ w. noted_all (entities b) nothing_noted ≡ ok w) (same_inside v u last) first in
      let facts = λ (c : Str). noted_all-Adds c (entities b) nothing_noted u all_noted in
      rw ((facts earlier).0, (facts earlier).2)
        (ap
          (λ x.
            any (λ e. is_stored earlier e.1) (entities b)
            && not (any (λ e. has_index earlier e.1) (entities b))
            && x)
          (ap (λ p. any p later) (fun_ext (λ c. (facts c).1))))
]
  where
    same_inside : (v u : UriIndexes) → some_indexes v ≡ ok (some u) → v ≡ u
    same_inside v u e = cc e
