-- ===== src/Aql/Keeps.antt =====
-- Invariants of the builder's actions (arango_sparql/translate/builder.py): one rule for each way
-- in which an action is composed.
use arango_sparql_py.Base.{Bool, true, false}
use arango_sparql_py.Base.Tests.{if◌then◌else◌}
use arango_sparql_py.Errors.{Error, Result, ok, err}
use arango_sparql_py.Aql.State.{
  Builder, Emit, pure, raise, lift, gets, modify, require, continue, ◌>>=◌,
}

-- `m` keeps `P`, whether it returns or raises.
pub record Keeps {ℓ} {A : Type ℓ} (P : Builder → Type 0) (m : Emit A) : Type ℓ where
  pub at : (b : Builder) → P b → P (m b).1

module _ {ℓ} {A : Type ℓ} {P : Builder → Type 0} where
  pub Keeps-pure : (a : A) → Keeps P (pure a)
  unfolding pure
  Keeps-pure a = record { at = λ b h. h }

  pub Keeps-raise : (e : Error) → Keeps P (raise {A = A} e)
  unfolding raise
  Keeps-raise e = record { at = λ b h. h }

  pub Keeps-lift : (r : Result A) → Keeps P (lift r)
  unfolding lift
  Keeps-lift r = record { at = λ b h. h }

  pub Keeps-gets : (f : Builder → A) → Keeps P (gets f)
  unfolding gets
  Keeps-gets f = record { at = λ b h. h }

  pub Keeps-if : (t : Bool) (m n : Emit A) → Keeps P m → Keeps P n → Keeps P (if t then m else n)
  Keeps-if true m n km kn = km
  Keeps-if false m n km kn = kn

module _ {P : Builder → Type 0} where
  pub Keeps-require : (t : Bool) (e : Error) → Keeps P (require t e)
  unfolding require
  Keeps-require true e = record { at = λ b h. h }
  Keeps-require false e = record { at = λ b h. h }

  pub Keeps-modify : (f : Builder → Builder) → ((b : Builder) → P b → P (f b)) → Keeps P (modify f)
  unfolding modify
  Keeps-modify f kf = record { at = kf }

module _ {ℓ κ} {A : Type ℓ} {B : Type κ} {P : Builder → Type 0} where
  Keeps-continue :
      (r : Result A) (f : A → Emit B) → ((a : A) → Keeps P (f a)) → Keeps P (continue r f)
  Keeps-continue (ok a) f kf = kf a
  Keeps-continue (err e) f kf = record { at = λ b h. h }

  pub Keeps-bind :
      (m : Emit A) (f : A → Emit B) → Keeps P m → ((a : A) → Keeps P (f a)) → Keeps P (m >>= f)
  unfolding ◌>>=◌
  Keeps-bind m f km kf = record {
    at = λ b h. let (r, b') = m b in (Keeps-continue r f kf).at b' (km.at b h);
  }

pub ruleset keeps_rules =
    (Keeps-pure, Keeps-raise, Keeps-lift, Keeps-gets, Keeps-if, Keeps-require, Keeps-bind)
