-- ===== src/Schema/Drift.antt =====
-- The fingerprints of arango_sparql/schema/fingerprint.py and how two of them differ.
use arango_sparql_py.Base.{ℕ, ◌≡◌, Bool, true, not, Option, some, ◌↔◌, arith, ◌≢◌}
use arango_sparql_py.Base.Tests.{if◌then◌else◌}
use arango_sparql_py.Base.Eq.{◌==◌, nat_eq, list_eq, eq_iff}
use arango_sparql_py.Base.Str.{Str}

pub data FingerprintDrift : Type 0 where
  unchanged stats_only shape_changed : FingerprintDrift

-- Times are microseconds.
pub record BundleFingerprint : Type 0 where
  pub shape : Str
  pub counts : Str
  pub payload_version : ℕ
  pub computed_at : ℕ

unfoldable pub drift_from : BundleFingerprint → BundleFingerprint → FingerprintDrift
drift_from current cached =
    if not (current.payload_version == cached.payload_version)
    then shape_changed
    else if not (current.shape == cached.shape)
    then shape_changed
    else if not (current.counts == cached.counts)
    then stats_only
    else unchanged

-- the comparison of two optional fingerprints by `is None or … is None or … != …`
abbrev differs : Option Str → Option Str → Bool
differs (some a) (some b) = not (a == b)
differs _ _ = true

unfoldable pub classify_live_drift : Str → Option Str → Str → Option Str → FingerprintDrift
classify_live_drift stored_shape stored_counts current_shape current_counts =
    if not (current_shape == stored_shape)
    then shape_changed
    else if differs current_counts stored_counts
    then stats_only
    else unchanged

-- Two fingerprints are reported unchanged exactly when version, shape and counts agree; only the
-- counts differ exactly when the report says so; and swapping the two never changes the report.
pub drift_from_iff :
    (a b : BundleFingerprint)
    → ((drift_from a b ≡ unchanged)
        ↔ ((a.payload_version ≡ b.payload_version) × (a.shape ≡ b.shape) × (a.counts ≡ b.counts)))
      × ((drift_from a b ≡ stats_only)
          ↔ ((a.payload_version ≡ b.payload_version) × (a.shape ≡ b.shape) × (a.counts ≢ b.counts)))
      × (drift_from a b ≡ drift_from b a)
unfolding drift_from
drift_from_iff a b = (
  ground (
    arith,
    eq_iff a.payload_version b.payload_version,
    eq_iff a.shape b.shape,
    eq_iff a.counts b.counts,
  ),
  ground (
    arith,
    eq_iff a.payload_version b.payload_version,
    eq_iff a.shape b.shape,
    eq_iff a.counts b.counts,
  ),
  ground (
    arith,
    eq_iff a.payload_version b.payload_version,
    eq_iff a.shape b.shape,
    eq_iff a.counts b.counts,
    eq_iff b.payload_version a.payload_version,
    eq_iff b.shape a.shape,
    eq_iff b.counts a.counts,
  ),
)
