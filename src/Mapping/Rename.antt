-- ===== src/Mapping/Rename.antt =====
-- Canonical names in arango_sparql/translate/mapping.py: what was renamed once is renamed to itself.
use arango_sparql_py.Base.{
  ◌≡◌, Bool, true, false, ◌&&◌, ◌||◌, Option, none, some, [], ◌∷◌, ◌++◌, refl, arith, inl, inr,
  append-nil, append_assoc, sym,
}
use arango_sparql_py.Base.Tests.{is_some, Bool-cases, Option-cases, and-eq-true}
use arango_sparql_py.Base.Eq.{◌==◌, nat_eq, list_eq, eq_iff}
use arango_sparql_py.Base.Lists.{All, all}
use arango_sparql_py.Base.Dict.{Dict, get, put, has}
use arango_sparql_py.Base.Dict.Distinct.{
  Distinct, put-Distinct, Apart, Apart-nil, put-new, Apart-put,
}
use arango_sparql_py.Base.Json.{Json}
use arango_sparql_py.Base.Str.{Str, codes}
use arango_sparql_py.Errors.{Result, ok_same}
use Result.{ok}
use arango_sparql_py.Mapping.{
  top_level_aliases, spec_field_aliases, or_same, top_name, spec_name, renamed,
}

module _ (name : Str → Str) where
  abbrev pub Fixed : Dict Str Json → Type 0
  Fixed d = All (λ (e : Str × Json). name e.0 ≡ e.0) d

  Fixed-put : (k : Str) (j : Json) (d : Dict Str Json) → name k ≡ k → Fixed d → Fixed (put k j d)
  unfolding put
  Fixed-put k j [] h f = (h, tt)
  Fixed-put k j ((i, x) ∷ d) h f = elim (Bool-cases (i == k)) [
    | inl same ↦ rw same f
    | inr differs ↦ rw differs (f.0, Fixed-put k j d h f.1)
  ]

  -- Entries under canonical names come out as they went in.
  pub renamed-Fixed :
      (out d : Dict Str Json)
      → Fixed d
      → Distinct d
      → Apart out d
      → renamed name out d ≡ ok (out ++ d)
  unfolding renamed
  renamed-Fixed out [] f u a = rw (append-nil out)
  renamed-Fixed out ((k, j) ∷ d) f u a = rw f.0 (
      rw (a.0, is_some, put-new k j out a.0)
        (rw (renamed-Fixed (out ++ (k, j) ∷ []) d f.1 u.1 apart, append_assoc out ((k, j) ∷ []) d)
          refl))
    where
      apart : Apart (out ++ (k, j) ∷ []) d
      apart = rw (sym (put-new k j out a.0)) (Apart-put k j out d u.0 a.1)

  module _ (again : (k : Str) → name (name k) ≡ name k) where
    pub renamed-IsCanonical :
        (out d r : Dict Str Json)
        → Fixed out
        → Distinct out
        → renamed name out d ≡ ok r
        → Fixed r × Distinct r
    unfolding renamed
    renamed-IsCanonical out [] r f u e = rw (sym (ok_same out r e)) (f, u)
    renamed-IsCanonical out ((k, j) ∷ d) r f u e = elim (Bool-cases (has (name k) out)) [
      | inl twice ↦ absurd (cc (rw twice at e))
      | inr once ↦
          renamed-IsCanonical (put (name k) j out) d r (Fixed-put (name k) j out (again k) f)
            (put-Distinct (name k) j out u) (rw once at e)
    ]

    -- What was renamed once comes out of a second time as it is.
    pub renamed-again : (d r : Dict Str Json) → renamed name [] d ≡ ok r → renamed name [] r ≡ ok r
    renamed-again d r e =
        let canonical = renamed-IsCanonical [] d r tt tt e in
        renamed-Fixed [] r canonical.0 canonical.1 (Apart-nil r)

some_same : (x c : Str) → ◌≡◌ {A = Option Str} (some x) (some c) → x ≡ c
some_same x c e = cc e

-- what a test of all entries says of the one that is found
get-all :
    (p : Str × Str → Bool) (d : Dict Str Str) (k c : Str)
    → all p d ≡ true
    → get k d ≡ some c
    → p (k, c) ≡ true
unfolding get
get-all p [] k c h g = absurd (cc g)
get-all p ((j, x) ∷ d) k c h g = elim (Bool-cases (j == k)) [
  | inl same ↦ entry ((eq_iff j k).0 same) (and-eq-true (p (j, x)) (all p d) h).0 (rw same at g)
  | inr differs ↦ get-all p d k c (and-eq-true (p (j, x)) (all p d) h).1 (rw differs at g)
]
  where
    entry : j ≡ k → p (j, x) ≡ true → ◌≡◌ {A = Option Str} (some x) (some c) → p (k, c) ≡ true
    entry e h g = rw (sym e) (rw (sym (some_same x c g)) h)

keeps_name : Bool → Str × Str → Bool
keeps_name r e = (r && e.0 == codes "collection_name") || spec_name r e.1 == e.1

top_table : all (λ (e : Str × Str). top_name e.1 == e.1) top_level_aliases ≡ true
unfolding top_name get
top_table = refl

spec_table : (r : Bool) → all (keeps_name r) spec_field_aliases ≡ true
unfolding keeps_name spec_name get
spec_table true = refl
spec_table false = refl

edge_name : spec_name true (codes "edgeCollectionName") ≡ codes "edgeCollectionName"
unfolding spec_name get
edge_name = refl

top_name-none : (k : Str) → get k top_level_aliases ≡ none → top_name k ≡ k
unfolding top_name
top_name-none k miss = rw (miss, or_same) refl

top_name-some : (k c : Str) → get k top_level_aliases ≡ some c → top_name k ≡ c
unfolding top_name
top_name-some k c found = rw (found, or_same) refl

abbrev edge_test : Bool → Str → Bool
edge_test r k = r && (k == codes "collectionName" || k == codes "collection_name")

spec_name-none :
    (r : Bool) (k : Str)
    → edge_test r k ≡ false
    → get k spec_field_aliases ≡ none
    → spec_name r k ≡ k
unfolding spec_name
spec_name-none r k plain miss = rw plain (rw (miss, or_same) refl)

spec_name-some :
    (r : Bool) (k c : Str)
    → edge_test r k ≡ false
    → get k spec_field_aliases ≡ some c
    → spec_name r k ≡ c
unfolding spec_name
spec_name-some r k c plain found = rw plain (rw (found, or_same) refl)

spec_name-edge :
    (r : Bool) (k : Str) → edge_test r k ≡ true → spec_name r k ≡ codes "edgeCollectionName"
unfolding spec_name
spec_name-edge r k edge = rw edge refl

spec_name-edge-again :
    (r : Bool) (k : Str) → edge_test r k ≡ true → spec_name r (spec_name r k) ≡ spec_name r k
spec_name-edge-again false k edge = absurd (cc edge)
spec_name-edge-again true k edge = rw (spec_name-edge true k edge) edge_name

kept :
    (r : Bool) (k c : Str) → edge_test r k ≡ false → keeps_name r (k, c) ≡ true → spec_name r c ≡ c
unfolding keeps_name
kept r k c plain h = ground (arith, eq_iff (spec_name r c) c)

pub top_name-again : (k : Str) → top_name (top_name k) ≡ top_name k
top_name-again k = elim (Option-cases (get k top_level_aliases)) [
  | inl miss ↦ rw (top_name-none k miss, top_name-none k miss) refl
  | inr (c, found) ↦ rw (top_name-some k c found) (
      (eq_iff (top_name c) c).0
        (get-all (λ (e : Str × Str). top_name e.1 == e.1) top_level_aliases k c top_table found))
]

pub spec_name-again : (r : Bool) (k : Str) → spec_name r (spec_name r k) ≡ spec_name r k
spec_name-again r k = elim (Bool-cases (edge_test r k)) [
  | inl edge ↦ spec_name-edge-again r k edge
  | inr plain ↦ elim (Option-cases (get k spec_field_aliases)) [
    | inl miss ↦ rw (spec_name-none r k plain miss, spec_name-none r k plain miss) refl
    | inr (c, found) ↦
        rw (spec_name-some r k c plain found)
          (kept r k c plain (get-all (keeps_name r) spec_field_aliases k c (spec_table r) found))
  ]
]
