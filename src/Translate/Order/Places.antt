-- ===== src/Translate/Order/Places.antt =====
-- The places of a pattern's triples: each stands once, and what is removed is the item that was found.
use arango_sparql_py.Base.{
  ℕ, ◌+◌, ◌<◌, ◌≡◌, true, List, [], ◌∷◌, refl, arith, inl, inr, subst, Option, none, some,
}
use arango_sparql_py.Base.Tests.{Bool-cases}
use arango_sparql_py.Base.Eq.{◌==◌, nat_eq, eq_refl}
use arango_sparql_py.Base.Dict.{Dict, get}
use arango_sparql_py.Base.Dict.Distinct.{Distinct}
use arango_sparql_py.Base.Lists.{All, length}
use arango_sparql_py.Translate.{Triple}
use arango_sparql_py.Translate.Order.{removed, enumerate_from}
use mathlib.Core.List.{Perm}
use mathlib.Core.List.Perm

abbrev pub Found : Dict ℕ Triple → ℕ × Triple → Type 0
Found d e = get e.0 d ≡ some e.1

Found-cons :
    (k : ℕ) (t : Triple) (d es : Dict ℕ Triple)
    → get k es ≡ none
    → All (Found d) es
    → All (Found ((k, t) ∷ d)) es
unfolding get
Found-cons k t d [] h f = tt
Found-cons k t d ((j, u) ∷ es) h f = elim (Bool-cases (j == k)) [
  | inl same ↦ absurd (cc (rw same at h))
  | inr differs ↦ (ground (arith, f.0), Found-cons k t d es (rw differs at h) f.1)
]

pub All-Found : (d : Dict ℕ Triple) → Distinct d → All (Found d) d
unfolding get
All-Found [] u = tt
All-Found ((k, t) ∷ d) u = (rw (eq_refl k) refl, Found-cons k t d d u.0 (All-Found d u.1))

pub removed-All :
    (P : ℕ × Triple → Type 0) (i : ℕ) (d : List (ℕ × Triple)) → All P d → All P (removed i d)
unfolding removed
removed-All P i [] h = tt
removed-All P i (e ∷ d) h = elim (Bool-cases (e.0 == i)) [
  | inl same ↦ rw same h.1
  | inr differs ↦ rw differs (h.0, removed-All P i d h.1)
]

get-removed-none : (i k : ℕ) (d : Dict ℕ Triple) → get k d ≡ none → get k (removed i d) ≡ none
unfolding removed get
get-removed-none i k [] h = refl
get-removed-none i k ((j, t) ∷ d) h = ground (arith, get-removed-none i k d)

pub removed-Distinct : (i : ℕ) (d : Dict ℕ Triple) → Distinct d → Distinct (removed i d)
unfolding removed
removed-Distinct i [] u = tt
removed-Distinct i ((j, t) ∷ d) u = elim (Bool-cases (j == i)) [
  | inl same ↦ rw same u.1
  | inr differs ↦ rw differs (get-removed-none i j d u.0, removed-Distinct i d u.1)
]

pub length-removed :
    (i : ℕ) (t : Triple) (d : Dict ℕ Triple)
    → get i d ≡ some t
    → length (removed i d) + 1 ≡ length d
unfolding removed get
length-removed i t [] h = absurd (cc h)
length-removed i t ((j, u) ∷ d) h = elim (Bool-cases (j == i)) [
  | inl same ↦ rw same (omega arith)
  | inr differs ↦ rw differs (omega (arith, length-removed i t d (rw differs at h)))
]

pub removed-perm :
    (i : ℕ) (t : Triple) (d : Dict ℕ Triple) → get i d ≡ some t → Perm ((i, t) ∷ removed i d) d
unfolding removed get
removed-perm i t [] h = absurd (cc h)
removed-perm i t ((j, u) ∷ d) h = elim (Bool-cases (j == i)) [
  | inl same ↦
      rw same (subst (λ e. Perm (e ∷ d) ((j, u) ∷ d)) (entry same (rw same at h)) (Perm.refl _))
  | inr differs ↦ rw differs (
      Perm.trans (Perm.swap (j, u) (i, t) (removed i d))
        (Perm.cons (j, u) (removed-perm i t d (rw differs at h))))
]
  where
    entry :
        (j == i) ≡ true
        → ◌≡◌ {A = Option Triple} (some u) (some t)
        → ◌≡◌ {A = ℕ × Triple} (j, u) (i, t)
    entry same h = ground arith

pub length-enumerate_from : (i : ℕ) (ts : List Triple) → length (enumerate_from i ts) ≡ length ts
length-enumerate_from i [] = refl
length-enumerate_from i (t ∷ ts) = omega (arith, length-enumerate_from (i + 1) ts)

get-enumerate_from : (k i : ℕ) (ts : List Triple) → k < i → get k (enumerate_from i ts) ≡ none
unfolding get
get-enumerate_from k i [] h = refl
get-enumerate_from k i (t ∷ ts) h = ground (arith, get-enumerate_from k (i + 1) ts)

pub enumerate_from-Distinct : (i : ℕ) (ts : List Triple) → Distinct (enumerate_from i ts)
enumerate_from-Distinct i [] = tt
enumerate_from-Distinct i (t ∷ ts) =
    (get-enumerate_from i (i + 1) ts (omega arith), enumerate_from-Distinct (i + 1) ts)
