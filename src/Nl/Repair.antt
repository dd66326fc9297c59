-- ===== src/Nl/Repair.antt =====
-- arango_sparql/nl2sparql/repair.py: the bounded repair loop. The translator and the generator are
-- callables with a state of their own.
pub mod Bounds
pub mod Outcomes
mod Tests
use arango_sparql_py.Base.{
  ℕ, zero, suc, ◌+◌, ◌≡◌, min, Bool, true, false, Option, none, some, List, [], ◌∷◌, ◌++◌, refl,
}
use arango_sparql_py.Base.Tests.{if◌then◌else◌, ltb}
use arango_sparql_py.Base.Lists.{length, take}
use arango_sparql_py.Base.Numbers.{ℤ, pos, negsuc}
use arango_sparql_py.Base.Str.{Str, codes}

abbrev pub default_max_repairs : ℕ
default_max_repairs = 2

abbrev pub max_repairs_ceiling : ℕ
max_repairs_ceiling = 5

-- `max(0, min(n, MAX_REPAIRS_CEILING))`
unfoldable pub clamp : ℤ → ℕ
clamp (pos n) = if ltb n max_repairs_ceiling then n else max_repairs_ceiling
clamp (negsuc n) = 0

abbrev pub parsed_default : Option ℤ → ℕ
parsed_default none = default_max_repairs
parsed_default (some n) = clamp n

-- `_env_default_max_repairs`; `parse` is `int`, none for its `ValueError`
unfoldable pub env_default_max_repairs : (Str → Option ℤ) → Option Str → ℕ
env_default_max_repairs parse none = default_max_repairs
env_default_max_repairs parse (some raw) = parsed_default (parse raw)

-- `RepairLoop.__init__`
unfoldable pub new_max_repairs : (Str → Option ℤ) → Option Str → Option ℤ → ℕ
new_max_repairs parse env none = clamp (pos (env_default_max_repairs parse env))
new_max_repairs parse env (some n) = clamp n

-- What the loop reads of a `SparqlError`.
pub record SparqlError : Type 0 where
  pub code : Str
  pub message : Str
  pub is_unsupported : Bool

pub record RepairOutcome : Type 0 where
  pub sparql : Str
  pub attempts : ℕ
  pub succeeded : Bool
  pub last_error : Option SparqlError

abbrev pub shortened : Str → Str
shortened msg = if ltb 600 (length msg) then take 600 msg ++ codes " …" else msg

abbrev pub hint : Bool → Str
hint true =
    10
    ∷ 10
    ∷ codes
        "This SPARQL feature is not yet supported by the deterministic translator. Try a SPARQL 1.1 alternative that uses BGPs, OPTIONAL, FILTER, UNION, GROUP BY, ORDER BY, or LIMIT instead."
hint false = []

unfoldable pub format_repair_context : SparqlError → Str
format_repair_context error =
    codes "[" ++ error.code ++ codes "] " ++ shortened error.message ++ hint error.is_unsupported

module _ {S : Type 0} (translator : Str → S → Option SparqlError × S)
    (generator : Str → S → Str × S) where
  -- The loop of `RepairLoop.run` from the answer of the translator on, with `left` repairs left:
  -- `attempt + left` is `self.max_repairs`.
  unfoldable pub tried : ℕ → ℕ → Str → Option SparqlError × S → RepairOutcome × S
  tried left attempt sparql (none, s) =
      (record { sparql = sparql; attempts = attempt; succeeded = true; last_error = none }, s)
  tried zero attempt sparql (some error, s) = (
    record { sparql = sparql; attempts = attempt; succeeded = false; last_error = some error },
    s,
  )
  tried (suc left) attempt sparql (some error, s) =
      let (next, s') = generator (format_repair_context error) s in
      tried left (attempt + 1) next (translator next s')

  unfoldable pub run : ℕ → Str → S → RepairOutcome × S
  unfolding tried
  run max_repairs first_sparql s = tried max_repairs 0 first_sparql (translator first_sparql s)
