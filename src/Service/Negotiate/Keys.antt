-- ===== src/Service/Negotiate/Keys.antt =====
-- The qualities in descending order, as arango_sparql/service/protocol/negotiate.py sorts them.
use arango_sparql_py.Base.{ℕ, ◌≤◌, ◌≡◌, true, ◌||◌, List, [], ◌∷◌, refl, arith, inl, inr}
use arango_sparql_py.Base.Tests.{leb, Bool-cases}
use arango_sparql_py.Base.Eq.{◌==◌, nat_eq, list_eq, eq_iff}
use arango_sparql_py.Base.Lists.{contains, All}
use arango_sparql_py.Base.Dict.{Dict, get, has}
use arango_sparql_py.Base.Str.{Str}
use arango_sparql_py.Service.Negotiate.{insert_key, sorted_keys}

-- Every key of the dictionary is among the sorted ones.
insert_key-contains :
    (k q : ℕ) (qs : List ℕ) → contains k (insert_key q qs) ≡ (q == k || contains k qs)
unfolding insert_key
insert_key-contains k q [] = refl
insert_key-contains k q (r ∷ rs) = ground (arith, insert_key-contains k q rs)

pub sorted_keys-contains :
    (k : ℕ) (tiers : Dict ℕ (List Str)) → contains k (sorted_keys tiers) ≡ has k tiers
unfolding sorted_keys get
sorted_keys-contains k [] = refl
sorted_keys-contains k ((q, ms) ∷ tiers) =
    ground (arith, insert_key-contains k q (sorted_keys tiers), sorted_keys-contains k tiers)

-- Each key is at least every later one.
abbrev pub Descending : List ℕ → Type 0
Descending [] = Unit
Descending (q ∷ qs) = All (λ r. r ≤ q) qs × Descending qs

insert_key-All :
    (b q : ℕ) (qs : List ℕ) → q ≤ b → All (λ r. r ≤ b) qs → All (λ r. r ≤ b) (insert_key q qs)
unfolding insert_key
insert_key-All b q [] h k = (h, tt)
insert_key-All b q (r ∷ rs) h k = elim (Bool-cases (leb r q)) [
  | inl le ↦ rw le (h, k)
  | inr gt ↦ rw gt (k.0, insert_key-All b q rs h k.1)
]

All-le : (a b : ℕ) (qs : List ℕ) → a ≤ b → All (λ r. r ≤ a) qs → All (λ r. r ≤ b) qs
All-le a b [] h k = tt
All-le a b (r ∷ rs) h k = (omega (arith, h, k.0), All-le a b rs h k.1)

insert_key-Descending : (q : ℕ) (qs : List ℕ) → Descending qs → Descending (insert_key q qs)
unfolding insert_key
insert_key-Descending q [] h = (tt, tt)
insert_key-Descending q (r ∷ rs) h = elim (Bool-cases (leb r q)) [
  | inl le ↦ rw le ((ground arith, All-le r q rs (ground arith) h.0), h)
  | inr gt ↦ rw gt (insert_key-All r q rs (ground arith) h.0, insert_key-Descending q rs h.1)
]

pub sorted_keys-Descending : (tiers : Dict ℕ (List Str)) → Descending (sorted_keys tiers)
unfolding sorted_keys
sorted_keys-Descending [] = tt
sorted_keys-Descending ((q, ms) ∷ tiers) =
    insert_key-Descending q (sorted_keys tiers) (sorted_keys-Descending tiers)

pub bounded : (q r : ℕ) (qs : List ℕ) → contains r (q ∷ qs) ≡ true → All (λ x. x ≤ q) qs → r ≤ q
bounded q r qs c h = elim (Bool-cases (q == r)) [
  | inl same ↦ ground (arith, eq_iff q r)
  | inr differs ↦ below q r qs (rw differs at c) h
]
  where
    below : (q r : ℕ) (qs : List ℕ) → contains r qs ≡ true → All (λ x. x ≤ q) qs → r ≤ q
    below q r [] c h = absurd (cc c)
    below q r (x ∷ qs) c h = elim (Bool-cases (x == r)) [
      | inl same ↦ ground (arith, eq_iff x r, h.0)
      | inr differs ↦ below q r qs (rw differs at c) h.1
    ]
