-- ===== src/Base/Order.antt =====
-- Python's order of texts and of tuples of them, and `sorted`.
use Prim.Native.Nat.{ℕ}
use mathlib.Core.Path.{◌≡◌, refl, sym, ◌∙◌}
use mathlib.Core.Logic.{inl, inr}
use mathlib.Core.Bool.{Bool, true, false, not, ◌&&◌, ◌||◌}
use mathlib.Core.List.{List, [], ◌∷◌}
use mathlib.Core.List.{Permᴰ}
use native.Mathlib.Omega.{arith}
use arango_sparql_py.Base.Tests.{if◌then◌else◌, ltb, Bool-cases}
use arango_sparql_py.Base.Eq.{Eq, ◌==◌}
use arango_sparql_py.Base.Lists.{contains, All}

-- A strict total order with its test.
pub record Order {ℓ} (A : Type ℓ) : Type ℓ where
  pub below : A → A → Bool
  pub irreflexive : (x : A) → below x x ≡ false
  pub transitive : (x y z : A) → below x y ≡ true → below y z ≡ true → below x z ≡ true
  pub total : (x y : A) → below x y ≡ false → below y x ≡ false → x ≡ y

pub ltb_irrefl : (x : ℕ) → ltb x x ≡ false
ltb_irrefl x = ground arith

pub ltb_trans : (x y z : ℕ) → ltb x y ≡ true → ltb y z ≡ true → ltb x z ≡ true
ltb_trans x y z h k = ground arith

pub ltb_total : (x y : ℕ) → ltb x y ≡ false → ltb y x ≡ false → x ≡ y
ltb_total x y h k = ground arith

instance abbrev pub nat_order : Order ℕ
nat_order = record {
  below = ltb;
  irreflexive = ltb_irrefl;
  transitive = ltb_trans;
  total = ltb_total;
}

module _ {ℓ} {A : Type ℓ} ⦃o : Order A⦄ where
  abbrev pub list_below : List A → List A → Bool
  list_below [] [] = false
  list_below [] (y ∷ ys) = true
  list_below (x ∷ xs) [] = false
  list_below (x ∷ xs) (y ∷ ys) = o.below x y || (not (o.below y x) && list_below xs ys)

  pub list_irreflexive : (xs : List A) → list_below xs xs ≡ false
  list_irreflexive [] = refl
  list_irreflexive (x ∷ xs) = ground (arith, o.irreflexive x, list_irreflexive xs)

  pub list_transitive :
      (xs ys zs : List A)
      → list_below xs ys ≡ true
      → list_below ys zs ≡ true
      → list_below xs zs ≡ true
  list_transitive [] [] zs h k = k
  list_transitive [] (y ∷ ys) [] h k = k
  list_transitive [] (y ∷ ys) (z ∷ zs) h k = refl
  list_transitive (x ∷ xs) [] zs h k = absurd (cc h)
  list_transitive (x ∷ xs) (y ∷ ys) [] h k = absurd (cc k)
  list_transitive (x ∷ xs) (y ∷ ys) (z ∷ zs) h k = ground (
    arith,
    o.transitive x y z,
    o.transitive z x y,
    o.transitive y z x,
    o.total x y,
    o.total y z,
    list_transitive xs ys zs,
  )

  pub list_total : (xs ys : List A) → list_below xs ys ≡ false → list_below ys xs ≡ false → xs ≡ ys
  list_total [] [] h k = refl
  list_total [] (y ∷ ys) h k = absurd (cc h)
  list_total (x ∷ xs) [] h k = absurd (cc k)
  list_total (x ∷ xs) (y ∷ ys) h k = ground (arith, o.total x y, list_total xs ys)

  instance abbrev pub list_order : Order (List A)
  list_order = record {
    below = list_below;
    irreflexive = list_irreflexive;
    transitive = list_transitive;
    total = list_total;
  }

  unfoldable pub insert : A → List A → List A
  insert a [] = a ∷ []
  insert a (x ∷ xs) = let rest = insert a xs in if o.below x a then x ∷ rest else a ∷ x ∷ xs

  -- `sorted(xs)`
  unfoldable pub sorted : List A → List A
  sorted [] = []
  sorted (x ∷ xs) = insert x (sorted xs)

  pub insert_comm : (a b : A) (xs : List A) → insert a (insert b xs) ≡ insert b (insert a xs)
  unfolding insert
  insert_comm a b [] = ground (arith, o.total a b, o.transitive a b a, o.irreflexive a)
  insert_comm a b (x ∷ xs) = ground (
    arith,
    o.total a b,
    o.transitive a b a,
    o.irreflexive a,
    o.transitive a b x,
    o.transitive b a x,
    o.transitive x a b,
    o.transitive x b a,
    o.total x a,
    o.total x b,
    insert_comm a b xs,
  )

  -- What is sorted does not depend on the order in which it came.
  pub sorted-perm : {xs ys : List A} → Permᴰ xs ys → sorted xs ≡ sorted ys
  unfolding sorted
  sorted-perm Permᴰ.nil = refl
  sorted-perm (Permᴰ.cons {b} {l₁} e p) = rw (e, sorted-perm p) refl
  sorted-perm (Permᴰ.swap {a} {b} {l} e f) = rw (sym e, sym f) (insert_comm a b (sorted l))
  sorted-perm (Permᴰ.trans p q) = sorted-perm p ∙ sorted-perm q

module _ {ℓ} {A : Type ℓ} ⦃o : Order A⦄ ⦃e : Eq A⦄ where
  insert-contains : (a x : A) (xs : List A) → contains x (insert a xs) ≡ (a == x || contains x xs)
  unfolding insert
  insert-contains a x [] = refl
  insert-contains a x (y ∷ ys) = ground (arith, insert-contains a x ys)

  pub sorted-contains : (x : A) (xs : List A) → contains x (sorted xs) ≡ contains x xs
  unfolding sorted
  sorted-contains x [] = refl
  sorted-contains x (y ∷ ys) = ground (arith, insert-contains y x (sorted ys), sorted-contains x ys)

module _ {ℓ} {A : Type ℓ} ⦃o : Order A⦄ where
  -- Nothing comes before what stands ahead of it.
  abbrev pub Ascending : List A → Type 0
  Ascending [] = Unit
  Ascending (x ∷ xs) = All (λ y. o.below y x ≡ false) xs × Ascending xs

  insert-All : (P : A → Type 0) (a : A) (xs : List A) → P a → All P xs → All P (insert a xs)
  unfolding insert
  insert-All P a [] p h = (p, tt)
  insert-All P a (x ∷ xs) p h = elim (Bool-cases (o.below x a)) [
    | inl first ↦ rw first (h.0, insert-All P a xs p h.1)
    | inr later ↦ rw later (p, (h.0, h.1))
  ]

  above-All :
      (a x : A) (xs : List A)
      → o.below x a ≡ false
      → All (λ y. o.below y x ≡ false) xs
      → All (λ y. o.below y a ≡ false) xs
  above-All a x [] h k = tt
  above-All a x (y ∷ ys) h k = (not_between a x y h k.0, above-All a x ys h k.1)
    where
      not_between : (a x y : A) → o.below x a ≡ false → o.below y x ≡ false → o.below y a ≡ false
      not_between a x y h k =
          ground (
            arith,
            o.total x a,
            o.total y x,
            o.transitive y a x,
            o.transitive a x y,
            o.irreflexive y,
          )

  insert-Ascending : (a : A) (xs : List A) → Ascending xs → Ascending (insert a xs)
  unfolding insert
  insert-Ascending a [] h = (tt, tt)
  insert-Ascending a (x ∷ xs) h = elim (Bool-cases (o.below x a)) [
    | inl first ↦ rw first (
      insert-All (λ y. o.below y x ≡ false) a xs
          (ground (arith, first, o.transitive x a x, o.irreflexive x)) h.0,
      insert-Ascending a xs h.1,
    )
    | inr later ↦ rw later ((later, above-All a x xs later h.0), h)
  ]

  pub sorted-Ascending : (xs : List A) → Ascending (sorted xs)
  unfolding sorted
  sorted-Ascending [] = tt
  sorted-Ascending (x ∷ xs) = insert-Ascending x (sorted xs) (sorted-Ascending xs)
