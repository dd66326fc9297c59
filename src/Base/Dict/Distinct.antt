-- ===== src/Base/Dict/Distinct.antt =====
-- Dicts in which no key stands twice, and two dicts without a key in common.
use mathlib.Core.Path.{◌≡◌, refl}
use mathlib.Core.Bool.{true}
use mathlib.Core.Option.{none}
use mathlib.Core.List.{[], ◌∷◌, ◌++◌}
use mathlib.Core.Logic.{inl, inr}
use native.Mathlib.Omega.{arith}
use arango_sparql_py.Base.Tests.{is_some, Bool-cases}
use arango_sparql_py.Base.Eq.{Eq, ◌==◌, eq_iff}
use arango_sparql_py.Base.Lists.{All}
use arango_sparql_py.Base.Dict.{Dict, get, put, get-put}

module _ {ℓ κ} {K : Type ℓ} {V : Type κ} ⦃e : Eq K⦄ where
  -- No key stands twice.
  abbrev pub Distinct : Dict K V → Type κ
  Distinct [] = Unit
  Distinct ((k, v) ∷ d) = (get k d ≡ none) × Distinct d

  pub put-Distinct : (k : K) (v : V) (d : Dict K V) → Distinct d → Distinct (put k v d)
  unfolding put get
  put-Distinct k v [] h = (refl, tt)
  put-Distinct k v ((j, w) ∷ d) h = elim (Bool-cases (j == k)) [
    | inl same ↦ rw same h
    | inr differs ↦
        rw differs
          (rw (get-put k j v d) (ground (arith, eq_iff j k, eq_iff k j)), put-Distinct k v d h.1)
  ]

  -- No key of the second stands in the first.
  abbrev pub Apart : Dict K V → Dict K V → Type κ
  Apart acc d = All (λ (x : K × V). get x.0 acc ≡ none) d

  pub put-new : (k : K) (v : V) (d : Dict K V) → get k d ≡ none → put k v d ≡ d ++ (k, v) ∷ []
  unfolding put get
  put-new k v [] h = refl
  put-new k v ((j, w) ∷ d) h = ground (arith, put-new k v d)

  pub Apart-put :
      (k : K) (v : V) (acc d : Dict K V) → get k d ≡ none → Apart acc d → Apart (put k v acc) d
  unfolding get
  Apart-put k v acc [] h a = tt
  Apart-put k v acc ((j, w) ∷ d) h a = (
    rw (get-put k j v acc) (ground (arith, eq_iff k j, eq_iff j k)),
    Apart-put k v acc d (ground arith) a.1,
  )

  pub get-Apart :
      (k : K) (acc d : Dict K V) → Apart acc d → is_some (get k acc) ≡ true → get k d ≡ none
  unfolding get
  get-Apart k acc [] a h = refl
  get-Apart k acc ((j, w) ∷ d) a h = elim (Bool-cases (j == k)) [
    | inl same ↦ absurd (cc ((eq_iff j k).0 same, a.0, h))
    | inr differs ↦ rw differs (get-Apart k acc d a.1 h)
  ]

  pub Apart-of_put :
      (k : K) (v : V) (acc d : Dict K V) → get k acc ≡ none → Apart (put k v acc) d → Apart acc d
  Apart-of_put k v acc [] h a = tt
  Apart-of_put k v acc ((j, w) ∷ d) h a =
      (ground (arith, get-put k j v acc, eq_iff k j, a.0), Apart-of_put k v acc d h a.1)

  pub Apart-nil : (d : Dict K V) → Apart [] d
  unfolding get
  Apart-nil [] = tt
  Apart-nil (x ∷ d) = (refl, Apart-nil d)
