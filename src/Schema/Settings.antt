-- ===== src/Schema/Settings.antt =====
-- What `SchemaCache` of arango_sparql/schema/cache.py holds and what it is given.
use arango_sparql_py.Base.{ℕ, zero, suc, ◌+◌, ◌*◌, Bool, true, false, Option, none, some, [], ◌∷◌}
use arango_sparql_py.Base.Tests.{leb}
use arango_sparql_py.Base.Eq.{◌==◌, nat_eq, list_eq}
use arango_sparql_py.Base.Dict.{Dict}
use arango_sparql_py.Base.Numbers.{ℤ, pos, negsuc}
use arango_sparql_py.Base.Str.{Str}
use arango_sparql_py.Schema.Drift.{BundleFingerprint}
use arango_sparql_py.Schema.Persistent.{Server}

abbrev pub default_ttl_seconds : ℕ
default_ttl_seconds = 3600

-- `_resolve_ttl_from_env`; `parse` is `int`, none for its exceptions
abbrev pub parsed_ttl : Option ℤ → ℕ
parsed_ttl (some (pos n)) = n
parsed_ttl (some (negsuc n)) = 0
parsed_ttl none = default_ttl_seconds

unfoldable pub resolve_ttl_from_env : (Str → Option ℤ) → Option Str → ℕ
resolve_ttl_from_env parse none = default_ttl_seconds
resolve_ttl_from_env parse (some []) = default_ttl_seconds
resolve_ttl_from_env parse (some (c ∷ s)) = parsed_ttl (parse (c ∷ s))

pub record CachedEntry (B : Type 0) : Type 0 where
  pub bundle : B
  pub fingerprint : BundleFingerprint
  pub acquired_at : ℕ
  pub db_shape : Option Str
  pub db_counts : Option Str
  pub producer : Option Str

pub record SchemaCache (B : Type 0) : Type 0 where
  pub ttl_seconds : ℤ
  pub l1 : Dict Str (CachedEntry B)

abbrev pub microseconds : ℕ
microseconds = 1000000

-- `age.total_seconds() >= ttl_seconds`; a zero or negative TTL never expires
abbrev pub expired_after : ℤ → ℕ → ℕ → Bool
expired_after (negsuc t) acquired_at now = false
expired_after (pos zero) acquired_at now = false
expired_after (pos (suc t)) acquired_at now = leb (acquired_at + suc t * microseconds) now

-- What the cache is given: the fingerprint of a bundle at a time, the identity of the running code,
-- the wire form and back, the server, and what `writes` returns.
pub record Setting (B W D : Type 0) : Type 0 where
  pub fingerprint_of : B → ℕ → BundleFingerprint
  pub current_producer : Str
  pub to_doc : B → W
  pub from_doc : W → Option B
  pub server : Server W D
  pub writes : Bool

abbrev pub from_code : Str → Option Str → Bool
from_code current none = true
from_code current (some p) = p == current

pub record CacheStatus : Type 0 where
  pub db_name : Str
  pub has_entry : Bool
  pub age : Option (ℕ × ℕ)
  pub is_expired_now : Bool
  pub fingerprint : Option BundleFingerprint
  pub ttl_seconds : ℤ
