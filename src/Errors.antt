-- ===== src/Errors.antt =====
-- arango_sparql/errors.py: the typed errors with their stable codes, and results that may fail.
-- A message is not modelled; Python's `ValueError` and `TypeError` are `value_error` and `type_error`, and
-- `mapping_error` is the class of arango_sparql/translate/mapping.py.
use arango_sparql_py.Base.{◌≡◌, refl, Option, none, some}
use arango_sparql_py.Base.Str.{Str, codes}

pub data Error : Type 0 where
  value_error sparql_error parse_error unsupported_error schema_error aql_emit_error : Error
  cross_tenant_error mapping_error type_error attribute_error assertion_error : Error

-- The class attribute `code`; Python's own errors have none.
abbrev pub error_code : Error → Option Str
error_code value_error = none
error_code sparql_error = some (codes "E_SPARQL")
error_code parse_error = some (codes "E_SPARQL_PARSE")
error_code unsupported_error = some (codes "E_SPARQL_UNSUPPORTED")
error_code schema_error = some (codes "E_SCHEMA_RESOLVE")
error_code aql_emit_error = some (codes "E_AQL_EMIT")
error_code cross_tenant_error = some (codes "E_TRANSLATE_CROSS_TENANT_JOIN")
error_code mapping_error = some (codes "E_MAPPING_INVALID")
error_code type_error = none
error_code attribute_error = none
error_code assertion_error = none

pub data Result {ℓ} (A : Type ℓ) : Type ℓ where
  ok : A → Result A
  err : Error → Result A

infixl 5 ◌>>=◌
abbrev pub ◌>>=◌ {ℓ κ} : {A : Type ℓ} {B : Type κ} → Result A → (A → Result B) → Result B
ok a >>= f = f a
err e >>= f = err e

-- what a chain that succeeds says of its first step
pub ok_of_bind {ℓ κ} :
    {A : Type ℓ} {B : Type κ} (r : Result A) (f : A → Result B) (b : B)
    → (r >>= f) ≡ ok b
    → (a : A) × (r ≡ ok a) × (f a ≡ ok b)
ok_of_bind (ok a) f b e = (a, refl, e)
ok_of_bind (err x) f b e = absurd (cc e)

pub ok_same {ℓ} : {A : Type ℓ} (a b : A) → ◌≡◌ {A = Result A} (ok a) (ok b) → a ≡ b
ok_same a b e = cc e
