-- ===== src/Base/Pigeon.antt =====
-- Distinct items that all stand in a list are no more than it has.
use Prim.Native.Nat.{suc, ◌≤◌}
use mathlib.Core.Path.{◌≡◌, refl, ap}
use mathlib.Core.Logic.{inl, inr}
use mathlib.Core.Bool.{true, false}
use mathlib.Core.List.{List, [], ◌∷◌}
use native.Mathlib.Omega.{arith}
use arango_sparql_py.Base.Tests.{if◌then◌else◌, Bool-cases}
use arango_sparql_py.Base.Eq.{Eq, ◌==◌, eq_iff}
use arango_sparql_py.Base.Lists.{contains, length, All, all_distinct}

-- `xs` without its first `a`
module _ {ℓ} {A : Type ℓ} ⦃e : Eq A⦄ where
  without : A → List A → List A
  without a [] = []
  without a (x ∷ xs) = let rest = without a xs in if x == a then xs else x ∷ rest

  length-without :
      (a : A) (xs : List A) → contains a xs ≡ true → suc (length (without a xs)) ≡ length xs
  unfolding without
  length-without a [] h = absurd (cc h)
  length-without a (x ∷ xs) h = elim (Bool-cases (x == a)) [
    | inl same ↦ rw same refl
    | inr other ↦ rw other (ap suc (length-without a xs (ground (arith, other, h))))
  ]

  contains-without :
      (a b : A) (xs : List A)
      → (a == b) ≡ false
      → contains b xs ≡ true
      → contains b (without a xs) ≡ true
  unfolding without
  contains-without a b [] n h = absurd (cc h)
  contains-without a b (x ∷ xs) n h = elim (Bool-cases (x == a)) [
    | inl same ↦ rw same (ground (arith, eq_iff x a, eq_iff x b, eq_iff a b))
    | inr other ↦ rw other (ground (arith, contains-without a b xs))
  ]

-- Distinct items of a list are no more than it has.
module _ {ℓ κ} {A : Type ℓ} {B : Type κ} ⦃e : Eq A⦄ ⦃o : Eq B⦄ (f : A → B) where
  apart : (a x : A) → (x == a) ≡ false → ((x y : A) → f x ≡ f y → x ≡ y) → (f a == f x) ≡ false
  apart a x n inj = ground (arith, eq_iff x a, eq_iff (f a) (f x), inj x a, inj a x)

  all-without :
      (a : A) (xs : List A) (ys : List B)
      → ((x y : A) → f x ≡ f y → x ≡ y)
      → contains a xs ≡ false
      → All (λ x. contains (f x) ys ≡ true) xs
      → All (λ x. contains (f x) (without (f a) ys) ≡ true) xs
  all-without a [] ys inj n h = tt
  all-without a (x ∷ xs) ys inj n h = (
    contains-without (f a) (f x) ys (apart a x (ground (arith, n)) inj) h.0,
    all-without a xs ys inj (ground (arith, n)) h.1,
  )

  pub length-le-of_distinct :
      (xs : List A) (ys : List B)
      → ((x y : A) → f x ≡ f y → x ≡ y)
      → all_distinct xs ≡ true
      → All (λ x. contains (f x) ys ≡ true) xs
      → length xs ≤ length ys
  length-le-of_distinct [] ys inj d h = omega arith
  length-le-of_distinct (x ∷ xs) ys inj d h = elim (Bool-cases (contains x xs)) [
    | inl twice ↦ absurd (ground (arith, twice, d))
    | inr once ↦ omega (
      arith,
      length-without (f x) ys h.0,
      length-le-of_distinct xs (without (f x) ys) inj (ground (arith, once, d))
          (all-without x xs ys inj once h.1),
    )
  ]
