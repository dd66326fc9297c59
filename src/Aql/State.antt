-- ===== src/Aql/State.antt =====
-- `AqlQueryBuilder` of arango_sparql/translate/builder.py: its fields, and its methods as actions
-- that return the builder and a result. What a method changed before it raised stays changed.
use arango_sparql_py.Base.{
  ℕ, Bool, true, false, ◌||◌, Option, none, List, [], ◌∷◌, ◌++◌, ◌≡◌, arith, ◌↔◌,
}
use arango_sparql_py.Base.Tests.{if◌then◌else◌}
use arango_sparql_py.Base.Eq.{Eq, ◌==◌, nat_eq, list_eq, eq_iff}
use arango_sparql_py.Base.Lists.{any}
use arango_sparql_py.Base.Dict.{Dict, put}
use arango_sparql_py.Base.Str.{Str, starts_with, codes}
use arango_sparql_py.Errors.{Error, Result, ok, err, value_error}

-- A bind value: a `str`, or any other Python value, of which the builder asks only `==`. A number
-- stands for each class of values that are equal.
pub data Value : Type 0 where
  str : Str → Value
  other : ℕ → Value

abbrev value_beq : Value → Value → Bool
value_beq (str s) (str t) = s == t
value_beq (other m) (other n) = m == n
value_beq _ _ = false

pub value_beq_iff : (a b : Value) → (value_beq a b ≡ true) ↔ (a ≡ b)
value_beq_iff (str s) (str t) = ground (arith, eq_iff s t)
value_beq_iff (str s) (other n) = ground arith
value_beq_iff (other m) (str t) = ground arith
value_beq_iff (other m) (other n) = ground (arith, eq_iff m n)

instance abbrev pub value_eq : Eq Value
value_eq = record { same = value_beq; same_iff = value_beq_iff }

pub data ClauseKind : Type 0 where
  for_kind filter_kind let_kind sort_kind limit_kind return_kind collect_kind raw_kind : ClauseKind

abbrev pub is_for : ClauseKind → Bool
is_for for_kind = true
is_for _ = false

abbrev pub is_collect : ClauseKind → Bool
is_collect collect_kind = true
is_collect _ = false

pub record Clause : Type 0 where
  pub kind : ClauseKind
  pub text : Str

pub record Warning : Type 0 where
  pub code : Str
  pub message : Str
  pub extra : Dict Str Value

pub record Builder : Type 0 where
  pub alias_counter : ℕ
  pub bind_counter : ℕ
  pub coll_counter : ℕ
  pub coll_bind_by_name : Dict Str Str
  pub bind_vars : Dict Str Value
  pub body_clauses : List Clause
  pub scanned_aliases : List Str
  pub with_collections : List Str
  pub sort_keys : List Str
  pub limit_clause : Option Clause
  pub return_clause : Option Clause
  pub return_distinct : Bool
  pub ask_mode : Bool
  pub empty_result_fallback : Bool
  pub warnings : List Warning

abbrev pub empty_builder : Builder
empty_builder = record {
  alias_counter = 0;
  bind_counter = 0;
  coll_counter = 0;
  coll_bind_by_name = [];
  bind_vars = [];
  body_clauses = [];
  scanned_aliases = [];
  with_collections = [];
  sort_keys = [];
  limit_clause = none;
  return_clause = none;
  return_distinct = false;
  ask_mode = false;
  empty_result_fallback = false;
  warnings = [];
}

-- the loop of `__post_init__`
unfoldable pub seed : Dict Str Value → Builder → Result Builder
seed [] b = ok b
seed ((k, v) ∷ params) b =
    let rest = seed params (record b { bind_vars = put k v b.bind_vars }) in
    if starts_with k (codes "_") || starts_with k (codes "@") then err value_error else rest

-- `AqlQueryBuilder(seed_params=…)`
unfoldable pub new_builder : Dict Str Value → Result Builder
unfolding seed
new_builder seed_params = seed seed_params empty_builder

abbrev pub Emit {ℓ} : Type ℓ → Type ℓ
Emit A = Builder → Result A × Builder

module _ {ℓ} {A : Type ℓ} where
  unfoldable pub pure : A → Emit A
  pure a b = (ok a, b)

  unfoldable pub raise : Error → Emit A
  raise e b = (err e, b)

  unfoldable pub lift : Result A → Emit A
  lift r b = (r, b)

  unfoldable pub gets : (Builder → A) → Emit A
  gets f b = (ok (f b), b)

unfoldable pub modify : (Builder → Builder) → Emit (Unit {0})
modify f b = (ok tt, f b)

module _ {ℓ κ} {A : Type ℓ} {B : Type κ} where
  abbrev pub continue : Result A → (A → Emit B) → Emit B
  continue (ok a) f b = f a b
  continue (err e) f b = (err e, b)

  infixl 10 ◌>>=◌
  unfoldable pub ◌>>=◌ : Emit A → (A → Emit B) → Emit B
  unfolding pure raise lift gets modify
  ◌>>=◌ m f b = let (r, b') = m b in continue r f b'

infixl 10 ◌>>◌
abbrev pub ◌>>◌ {ℓ} : {B : Type ℓ} → Emit (Unit {0}) → Emit B → Emit B
m >> n = m >>= λ _. n

-- `if not test: raise e`
unfoldable pub require : Bool → Error → Emit (Unit {0})
require true e b = (ok tt, b)
require false e b = (err e, b)

-- `self._body_clauses.append(_Clause(kind, text))`
unfoldable pub add_clause : ClauseKind → Str → Emit (Unit {0})
add_clause kind text b =
    (ok tt, record b { body_clauses = b.body_clauses ++ record { kind = kind; text = text } ∷ [] })

-- `self._scanned_aliases.append(alias)`
unfoldable pub add_scanned : Str → Emit (Unit {0})
add_scanned alias b = (ok tt, record b { scanned_aliases = b.scanned_aliases ++ alias ∷ [] })

unfoldable pub has_for_clause : Builder → Bool
has_for_clause b = any (λ c. is_for c.kind) b.body_clauses
