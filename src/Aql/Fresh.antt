-- ===== src/Aql/Fresh.antt =====
-- Bind names of the builder of arango_sparql/translate/builder.py: the number in a name is read
-- back, and no number is used twice.
pub mod Numbered
pub mod Mint
pub mod Seed
pub mod Placeholders
pub mod Child
pub mod Absorb
pub mod Program
use arango_sparql_py.Base.{
  ℕ, ◌+◌, ◌-◌, ◌*◌, ◌≤◌, ◌<◌, ◌≡◌, ◌≢◌, refl, Bool, true, false, not, ◌&&◌, List, [], ◌∷◌, ◌++◌,
  Option, none, some, map, arith, append_assoc, inl, inr, ◌⊎◌,
}
use arango_sparql_py.Base.Tests.{if◌then◌else◌, leb, ltb, Bool-cases, Option-cases}
use arango_sparql_py.Base.Eq.{◌==◌, nat_eq, list_eq, eq_iff}
use arango_sparql_py.Base.Lists.{All, drop}
use arango_sparql_py.Base.Dict.{Dict, get, put, get-put}
use arango_sparql_py.Base.Dict.Distinct.{Distinct, put-Distinct}
use arango_sparql_py.Base.Str.{
  Str, codes, is_digit, IsDigit, show, value, value-show, show-IsDigit, starts_with,
}
use arango_sparql_py.Errors.{Result, ok, err}
use arango_sparql_py.Aql.State.{Value, str, Builder, Emit}
use arango_sparql_py.Aql.Mint.{bind_name, coll_name, hint_suffix, sanitize}

-- the number that the leading digits of a text name
lead_value : ℕ → Str → ℕ
lead_value n [] = n
lead_value n (c ∷ s) = if is_digit c then lead_value (n * 10 + (c - 48)) s else n

abbrev starts_digit : Str → Bool
starts_digit [] = false
starts_digit (c ∷ s) = is_digit c

lead_value-digits :
    (n : ℕ) (ds rest : Str)
    → All IsDigit ds
    → starts_digit rest ≡ false
    → lead_value n (ds ++ rest) ≡ value n ds
unfolding lead_value value
lead_value-digits n [] [] h k = refl
lead_value-digits n [] (c ∷ rest) h k = rw k
lead_value-digits n (d ∷ ds) rest h k = rw h.0 (lead_value-digits (n * 10 + (d - 48)) ds rest h.1 k)

lead_value-show :
    (n : ℕ) (rest : Str) → starts_digit rest ≡ false → lead_value 0 (show n ++ rest) ≡ n
lead_value-show n rest k = rw (lead_value-digits 0 (show n) rest (show-IsDigit n) k) (value-show n)

-- The number of a value bind `_p<n>…`, and of a collection bind `@c<n>_…`.
pub bind_index : Str → Option ℕ
bind_index k = if starts_with k (codes "_p") then some (lead_value 0 (drop 2 k)) else none

pub coll_index : Str → Option ℕ
coll_index k = if starts_with k (codes "@c") then some (lead_value 0 (drop 2 k)) else none

hint_suffix-no_digit :
    (hint : Option Str) (suffix : Str) → hint_suffix hint ≡ ok suffix → starts_digit suffix ≡ false
unfolding hint_suffix is_digit
hint_suffix-no_digit none suffix h = ground arith
hint_suffix-no_digit (some []) suffix h = ground arith
hint_suffix-no_digit (some (c ∷ s)) suffix h = ground arith

pub bind_index-bind_name :
    (n : ℕ) (hint : Option Str) (suffix : Str)
    → hint_suffix hint ≡ ok suffix
    → bind_index (bind_name n suffix) ≡ some n
unfolding bind_index
bind_index-bind_name n hint suffix h =
    rw (lead_value-show n suffix (hint_suffix-no_digit hint suffix h))

pub coll_index-bind_name : (n : ℕ) (suffix : Str) → coll_index (bind_name n suffix) ≡ none
unfolding coll_index
coll_index-bind_name n suffix = refl

pub coll_index-coll_name : (n : ℕ) (c : Str) → coll_index (64 ∷ coll_name n c) ≡ some n
unfolding coll_index
coll_index-coll_name n c = rw (lead_value-show n (95 ∷ sanitize c) (unfold is_digit in refl))

pub bind_index-coll_name : (n : ℕ) (c : Str) → bind_index (64 ∷ coll_name n c) ≡ none
unfolding bind_index
bind_index-coll_name n c = refl

-- What holds of every builder: the numbers in use are at most the counters, a cached collection's
-- placeholder stands for that collection, and no bind name stands twice.
pub record IsFresh (b : Builder) : Type 0 where
  pub bind_used :
      (k : Str) (v : Value) (n : ℕ)
      → get k b.bind_vars ≡ some v
      → bind_index k ≡ some n
      → n ≤ b.bind_counter
  pub coll_used :
      (k : Str) (v : Value) (n : ℕ)
      → get k b.bind_vars ≡ some v
      → coll_index k ≡ some n
      → n ≤ b.coll_counter
  pub cached :
      (c name : Str)
      → get c b.coll_bind_by_name ≡ some name
      → get (64 ∷ name) b.bind_vars ≡ some (str c)
  pub distinct : Distinct b.bind_vars

-- What holds of a child: each bind name of its own carries a number above those its parent had.
pub record IsAbove (bind_low coll_low : ℕ) (b : Builder) : Type 0 where
  pub bind_le : bind_low ≤ b.bind_counter
  pub coll_le : coll_low ≤ b.coll_counter
  pub above :
      (k : Str) (v : Value)
      → get k b.bind_vars ≡ some v
      → ((n : ℕ) × (bind_index k ≡ some n) × (bind_low < n))
        ⊎ ((n : ℕ) × (coll_index k ≡ some n) × (coll_low < n))

module _ {b : Builder} (h : IsFresh b) where
  -- A name with the next number is not in use.
  pub next_bind-unused :
      (k : Str) → bind_index k ≡ some (b.bind_counter + 1) → get k b.bind_vars ≡ none
  next_bind-unused k i = elim (Option-cases (get k b.bind_vars)) [
    | inl free ↦ free
    | inr (v, taken) ↦ absurd (omega (arith, h.bind_used k v (b.bind_counter + 1) taken i))
  ]

  pub next_coll-unused :
      (k : Str) → coll_index k ≡ some (b.coll_counter + 1) → get k b.bind_vars ≡ none
  next_coll-unused k i = elim (Option-cases (get k b.bind_vars)) [
    | inl free ↦ free
    | inr (v, taken) ↦ absurd (omega (arith, h.coll_used k v (b.coll_counter + 1) taken i))
  ]
