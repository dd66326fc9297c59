-- ===== src/Base/AnyOf.antt =====
-- A predicate that some item of a list has.
use mathlib.Core.Path.{◌≡◌}
use mathlib.Core.Bool.{Bool, true}
use mathlib.Core.Logic.{◌⊎◌, inl, inr}
use mathlib.Core.List.{List, [], ◌∷◌, ◌++◌}
use arango_sparql_py.Base.Tests.{Bool-cases}
use arango_sparql_py.Base.Lists.{keep}

abbrev pub AnyOf {ℓ} : {A : Type ℓ} → (A → Type 0) → List A → Type 0
AnyOf P [] = ⊥
AnyOf P (x ∷ xs) = P x ⊎ AnyOf P xs

pub any_of_right {ℓ} :
    {A : Type ℓ} (P : A → Type 0) (xs ys : List A) → AnyOf P ys → AnyOf P (xs ++ ys)
any_of_right P [] ys h = h
any_of_right P (x ∷ xs) ys h = inr (any_of_right P xs ys h)

pub any_of_left {ℓ} :
    {A : Type ℓ} (P : A → Type 0) (xs ys : List A) → AnyOf P xs → AnyOf P (xs ++ ys)
any_of_left P [] ys h = absurd h
any_of_left P (x ∷ xs) ys (inl h) = inl h
any_of_left P (x ∷ xs) ys (inr h) = inr (any_of_left P xs ys h)

pub any_of_keep {ℓ} :
    {A : Type ℓ} (P : A → Type 0) (test : A → Bool) (xs : List A)
    → ((x : A) → P x → test x ≡ true)
    → AnyOf P xs
    → AnyOf P (keep test xs)
any_of_keep P test [] h p = absurd p
any_of_keep P test (x ∷ xs) h (inl p) = rw (h x p) (inl p)
any_of_keep P test (x ∷ xs) h (inr p) = elim (Bool-cases (test x)) [
  | inl yes_ ↦ rw yes_ (inr (any_of_keep P test xs h p))
  | inr no_ ↦ rw no_ (any_of_keep P test xs h p)
]
