-- ===== src/Schema/Cache.antt =====
-- arango_sparql/schema/cache.py: `SchemaCache`, the in-process tier with its read-through to and
-- write-through into the stored one. Times are microseconds. A bundle, its wire form, the bundle
-- fingerprint and the identity of the running code are parameters.
use arango_sparql_py.Base.{ℕ, Bool, true, false, Option, none, some, [], ◌∷◌}
use arango_sparql_py.Base.Tests.{is_some}
use arango_sparql_py.Base.Eq.{nat_eq, list_eq}
use arango_sparql_py.Base.Lists.{length}
use arango_sparql_py.Base.Dict.{get, put, remove, has, set_default}
use arango_sparql_py.Base.Numbers.{ℤ}
use arango_sparql_py.Base.Str.{Str, codes}
use arango_sparql_py.Schema.Drift.{BundleFingerprint, FingerprintDrift, drift_from}
use arango_sparql_py.Schema.Persistent.{
  PersistedEntry, stored_get, stored_set, touch, stored_invalidate,
}
use arango_sparql_py.Schema.Settings.{
  CachedEntry, SchemaCache, Setting, expired_after, from_code, CacheStatus,
}

module _ {B : Type 0} where
  unfoldable pub is_expired : CachedEntry B → ℤ → ℕ → Bool
  is_expired entry ttl now = expired_after ttl entry.acquired_at now

  unfoldable pub is_from_current_code : Str → CachedEntry B → Bool
  is_from_current_code current entry = from_code current entry.producer

  -- evicts the entry that was read; no other entry came in between
  abbrev pub answered :
      Bool → Str → CachedEntry B → SchemaCache B → Option (CachedEntry B) × SchemaCache B
  answered true db_name entry c = (none, record c { l1 = remove db_name c.l1 })
  answered false db_name entry c = (some entry, c)

  unfoldable pub l1_invalidate : Str → SchemaCache B → Bool × SchemaCache B
  l1_invalidate db_name c = (has db_name c.l1, record c { l1 = remove db_name c.l1 })

  unfoldable pub clear : SchemaCache B → ℕ × SchemaCache B
  clear c = (length c.l1, record c { l1 = [] })

  -- the age is kept as the pair of the time asked at and the time acquired
  abbrev status_of : Str → ℤ → ℕ → Option (CachedEntry B) → CacheStatus
  status_of db_name ttl now none = record {
    db_name = db_name;
    has_entry = false;
    age = none;
    is_expired_now = false;
    fingerprint = none;
    ttl_seconds = ttl;
  }
  status_of db_name ttl now (some e) = record {
    db_name = db_name;
    has_entry = true;
    age = some (now, e.acquired_at);
    is_expired_now = is_expired e ttl now;
    fingerprint = some e.fingerprint;
    ttl_seconds = ttl;
  }

  unfoldable pub status : Str → ℕ → SchemaCache B → CacheStatus
  status db_name now c = status_of db_name c.ttl_seconds now (get db_name c.l1)

module _ {B W D : Type 0} (s : Setting B W D) where
  abbrev pub entry_of : PersistedEntry B → CachedEntry B
  entry_of p = record {
    bundle = p.bundle;
    fingerprint = s.fingerprint_of p.bundle p.updated_at;
    acquired_at = p.updated_at;
    db_shape = p.shape_fingerprint;
    db_counts = p.full_fingerprint;
    producer = elim p.producer [ none ↦ some (codes "unknown") | some q ↦ some q ];
  }

  abbrev pub entry_read : Option (PersistedEntry B) → Option (CachedEntry B)
  entry_read none = none
  entry_read (some p) = some (entry_of p)

  unfoldable pub read_from_l2 : D → Option (CachedEntry B)
  unfolding stored_get
  read_from_l2 d = entry_read (stored_get s.server s.from_doc d)

  -- the read of L2 and the `setdefault` after it
  abbrev pub hydrated :
      Str → Option (CachedEntry B) → SchemaCache B → Option (CachedEntry B) × SchemaCache B
  hydrated db_name none c = (none, c)
  hydrated db_name (some e) c =
      let (kept, l1) = set_default db_name e c.l1 in (some kept, record c { l1 = l1 })

  abbrev pub looked_up :
      Str
      → Option D
      → Option (CachedEntry B)
      → SchemaCache B
      → Option (CachedEntry B) × SchemaCache B
  looked_up db_name db (some e) c = (some e, c)
  looked_up db_name none none c = (none, c)
  looked_up db_name (some d) none c = hydrated db_name (read_from_l2 d) c

  unfoldable pub lookup : Str → Option D → SchemaCache B → Option (CachedEntry B) × SchemaCache B
  lookup db_name db c = looked_up db_name db (get db_name c.l1) c

  abbrev pub checked :
      Str → ℕ → Option (CachedEntry B) × SchemaCache B → Option (CachedEntry B) × SchemaCache B
  checked db_name now (none, c) = (none, c)
  checked db_name now (some e, c) = answered (is_expired e c.ttl_seconds now) db_name e c

  -- `SchemaCache.get`
  unfoldable pub get_entry :
      Str → Option D → ℕ → SchemaCache B → Option (CachedEntry B) × SchemaCache B
  get_entry db_name db now c = checked db_name now (lookup db_name db c)

  abbrev pub peeked :
      ℕ → Option (CachedEntry B) × SchemaCache B → (Option (CachedEntry B) × Bool) × SchemaCache B
  peeked now (none, c) = ((none, false), c)
  peeked now (some e, c) = ((some e, is_expired e c.ttl_seconds now), c)

  unfoldable pub peek :
      Str → Option D → ℕ → SchemaCache B → (Option (CachedEntry B) × Bool) × SchemaCache B
  peek db_name db now c = peeked now (lookup db_name db c)

  unfoldable pub has_fresh_entry : Str → ℕ → SchemaCache B → Bool × SchemaCache B
  has_fresh_entry db_name now c =
      let (entry, c') = get_entry db_name none now c in (is_some entry, c')

  abbrev pub producer_or_current : Option Str → Str
  producer_or_current (some (c ∷ p)) = c ∷ p
  producer_or_current _ = s.current_producer

  unfoldable pub persist_to_l2 : CachedEntry B → D → Bool × D
  unfolding stored_set
  persist_to_l2 e d =
      stored_set s.server s.writes (s.to_doc e.bundle) e.db_shape e.db_counts
        (producer_or_current e.producer) e.acquired_at d

  abbrev pub persisted : CachedEntry B → Option D → Option D
  persisted e none = none
  persisted e (some d) = let (stored, d') = persist_to_l2 e d in some d'

  abbrev pub new_entry : B → Option Str → Option Str → Option BundleFingerprint → ℕ → CachedEntry B
  new_entry bundle db_shape db_counts fingerprint now = record {
    bundle = bundle;
    fingerprint = elim fingerprint [ none ↦ s.fingerprint_of bundle now | some f ↦ f ];
    acquired_at = now;
    db_shape = db_shape;
    db_counts = db_counts;
    producer = some s.current_producer;
  }

  -- `SchemaCache.put`: the stored entry, the cache and the database after it
  unfoldable pub put_entry :
      Str
      → B
      → Option D
      → Option Str
      → Option Str
      → Option BundleFingerprint
      → ℕ
      → SchemaCache B
      → CachedEntry B × SchemaCache B × Option D
  put_entry db_name bundle db db_shape db_counts fingerprint now c =
      let e = new_entry bundle db_shape db_counts fingerprint now in
      (e, record c { l1 = put db_name e c.l1 }, persisted e db)

  abbrev pub touched : Option Str → ℕ → Option D → Option D
  touched db_counts now none = none
  touched db_counts now (some d) = let (done, d') = touch s.server db_counts now d in some d'

  abbrev pub restamped :
      Str
      → Option D
      → Option Str
      → ℕ
      → Option (CachedEntry B)
      → SchemaCache B
      → Option (CachedEntry B) × SchemaCache B × Option D
  restamped db_name db db_counts now none c = (none, c, db)
  restamped db_name db db_counts now (some e) c =
      let e' = record e { acquired_at = now; db_counts = db_counts } in
      (some e', record c { l1 = put db_name e' c.l1 }, touched db_counts now db)

  unfoldable pub revalidated :
      Str
      → Option D
      → Option Str
      → ℕ
      → SchemaCache B
      → Option (CachedEntry B) × SchemaCache B × Option D
  revalidated db_name db db_counts now c = restamped db_name db db_counts now (get db_name c.l1) c

  unfoldable pub invalidate_persistent : D → Bool × D
  unfolding stored_invalidate
  invalidate_persistent d = stored_invalidate s.server s.writes d

  abbrev drift_of : BundleFingerprint → Option (CachedEntry B) → Option FingerprintDrift
  drift_of current none = none
  drift_of current (some e) = some (drift_from current e.fingerprint)

  unfoldable pub drift :
      Str → BundleFingerprint → ℕ → SchemaCache B → Option FingerprintDrift × SchemaCache B
  drift db_name current now c =
      let (entry, c') = get_entry db_name none now c in (drift_of current entry, c')
