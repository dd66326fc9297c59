-- ===== src/Base/Dict.antt =====
-- Python's `dict`: entries in insertion order; a write to a present key keeps its place.
pub mod Distinct
use Prim.Native.Nat.{◌+◌, ◌≤◌}
use mathlib.Core.Path.{◌≡◌, refl, ap}
use mathlib.Core.Bool.{Bool, false}
use mathlib.Core.Option.{Option, none, some}
use mathlib.Core.List.{List, [], ◌∷◌}
use native.Mathlib.Omega.{arith}
use arango_sparql_py.Base.Tests.{if◌then◌else◌, is_some, Option-cases}
use mathlib.Core.Logic.{inl, inr}
use arango_sparql_py.Base.Eq.{Eq, ◌==◌, eq_iff, eq_refl, eq_of_ne}
use arango_sparql_py.Base.Lists.{length}

abbrev pub Dict {ℓ κ} : Type ℓ → Type κ → Type (ℓ ⊔ κ)
Dict K V = List (K × V)

module _ {ℓ κ} {K : Type ℓ} {V : Type κ} ⦃e : Eq K⦄ where
  -- `d.get(k)`
  unfoldable pub get : K → Dict K V → Option V
  get k [] = none
  get k ((j, v) ∷ d) = if j == k then some v else get k d

  -- `k in d`
  abbrev pub has : K → Dict K V → Bool
  has k d = is_some (get k d)

  -- `d[k] = v`
  unfoldable pub put : K → V → Dict K V → Dict K V
  put k v [] = (k, v) ∷ []
  put k v ((j, w) ∷ d) = let rest = put k v d in if j == k then (j, v) ∷ d else (j, w) ∷ rest

  -- `d.pop(k, None)`, `del d[k]`
  unfoldable pub remove : K → Dict K V → Dict K V
  remove k [] = []
  remove k ((j, v) ∷ d) = let rest = remove k d in if j == k then rest else (j, v) ∷ rest

  pub get-put :
      (k j : K) (v : V) (d : Dict K V) → get j (put k v d) ≡ (if k == j then some v else get j d)
  unfolding get put
  get-put k j v [] = refl
  get-put k j v ((i, w) ∷ d) = ground (arith, eq_iff k j, eq_iff i k, eq_iff i j, get-put k j v d)

  pub get-remove :
      (k j : K) (d : Dict K V) → get j (remove k d) ≡ (if k == j then none else get j d)
  unfolding get remove
  get-remove k j [] = ground arith
  get-remove k j ((i, w) ∷ d) = ground (arith, eq_iff k j, eq_iff i k, eq_iff i j, get-remove k j d)

  pub get-put_self : (k : K) (v : V) (d : Dict K V) → get k (put k v d) ≡ some v
  get-put_self k v d = rw (get-put k k v d, eq_refl k)

  pub length-put-le : (k : K) (v : V) (d : Dict K V) → length (put k v d) ≤ length d + 1
  unfolding put
  length-put-le k v [] = omega arith
  length-put-le k v ((j, w) ∷ d) = ground (arith, length-put-le k v d)

  pub length-remove-le : (k : K) (d : Dict K V) → length (remove k d) ≤ length d
  unfolding remove
  length-remove-le k [] = omega arith
  length-remove-le k ((j, w) ∷ d) = ground (arith, length-remove-le k d)

  abbrev default_in : K → V → Dict K V → Option V → V × Dict K V
  default_in k v d none = (v, put k v d)
  default_in k v d (some w) = (w, d)

  -- `d.setdefault(k, v)`: the value it returns, and the dict after it
  unfoldable pub set_default : K → V → Dict K V → V × Dict K V
  set_default k v d = default_in k v d (get k d)

  other : (k j : K) (w : V) (d : Dict K V) → get k d ≡ none → get j d ≡ some w → (k == j) ≡ false
  other k j w d free g = eq_of_ne k j λ same. absurd (cc (free, g, ap (λ x. get x d) same))

  pub set_default-keeps :
      (k j : K) (v w : V) (d : Dict K V) → get j d ≡ some w → get j (set_default k v d).1 ≡ some w
  unfolding set_default
  set_default-keeps k j v w d g = elim (Option-cases (get k d)) [
    | inr (x, found) ↦ rw (found, default_in) g
    | inl free ↦ rw (free, default_in) (rw (get-put k j v d) (rw (other k j w d free g) g))
  ]

  pub set_default-new :
      (k : K) (v : V) (d : Dict K V) → get k d ≡ none → set_default k v d ≡ (v, put k v d)
  unfolding set_default
  set_default-new k v d free = rw (free, default_in) refl

  pub set_default-old :
      (k : K) (v w : V) (d : Dict K V) → get k d ≡ some w → (set_default k v d).1 ≡ d
  unfolding set_default
  set_default-old k v w d found = rw (found, default_in) refl
