-- ===== src/Schema/Lookups.antt =====
-- What a read of `SchemaCache` (arango_sparql/schema/cache.py) returns and what it leaves.
use arango_sparql_py.Base.{
  ℕ, ◌≡◌, Bool, true, false, ◌&&◌, Option, none, some, refl, ap, arith, inl, inr,
}
use arango_sparql_py.Base.Tests.{if◌then◌else◌, Bool-cases, Option-cases}
use arango_sparql_py.Base.Eq.{◌==◌, nat_eq, list_eq, eq_iff, eq_of_ne}
use arango_sparql_py.Base.Dict.{get, put, get-put_self, get-remove, set_default, set_default-keeps}
use arango_sparql_py.Base.Str.{Str}
use arango_sparql_py.Schema.Drift.{BundleFingerprint}
use arango_sparql_py.Schema.Cache.{
  is_expired, answered, checked, peeked, looked_up, hydrated, lookup, get_entry, new_entry,
  put_entry, read_from_l2,
}
use arango_sparql_py.Schema.Settings.{CachedEntry, SchemaCache, Setting}
use arango_sparql_py.Schema.Settings.{expired_after}

module _ {B W D : Type 0} (s : Setting B W D) where
  checked-peeked :
      (k : Str) (now : ℕ) (r : Option (CachedEntry B) × SchemaCache B)
      → (checked s k now r).0 ≡ (if (peeked s now r).0.1 then none else (peeked s now r).0.0)
  checked-peeked k now (none, c) = refl
  checked-peeked k now (some e, c) = elim (Bool-cases (is_expired e c.ttl_seconds now)) [
    | inl old ↦ rw old refl
    | inr new ↦ rw new refl
  ]

  lookup-hit :
      (k : Str) (db : Option D) (e : CachedEntry B) (c : SchemaCache B)
      → get k c.l1 ≡ some e
      → lookup s k db c ≡ (some e, c)
  unfolding lookup
  lookup-hit k db e c g = rw (g, looked_up) refl

  get_entry-hit :
      (k : Str) (db : Option D) (now : ℕ) (e : CachedEntry B) (c : SchemaCache B)
      → get k c.l1 ≡ some e
      → get_entry s k db now c ≡ answered (is_expired e c.ttl_seconds now) k e c
  unfolding get_entry
  get_entry-hit k db now e c g = rw (lookup-hit k db e c g) refl

  answered-is :
      (b : Bool) (k : Str) (e : CachedEntry B) (c : SchemaCache B)
      → (answered b k e c).0 ≡ (if b then none else some e)
  answered-is true k e c = refl
  answered-is false k e c = refl

  -- What `put` stored under a name is what `get` returns for it, with or without a database handle,
  -- until it has expired.
  pub get_entry-put_entry :
      (k : Str) (bundle : B) (db db' : Option D) (shape counts : Option Str)
      (fingerprint : Option BundleFingerprint) (stored later : ℕ) (c : SchemaCache B)
      → let (e, c', d) = put_entry s k bundle db shape counts fingerprint stored c in
        (get_entry s k db' later c').0
        ≡ (if expired_after c.ttl_seconds stored later then none else some e)
  unfolding put_entry is_expired
  get_entry-put_entry k bundle db db' shape counts fingerprint stored later c =
      let e = new_entry s bundle shape counts fingerprint stored in
      let c' : SchemaCache B = record c { l1 = put k e c.l1 } in
      rw (get_entry-hit k db' later e c' (get-put_self k e c.l1))
        (answered-is (expired_after c.ttl_seconds stored later) k e c')

  answered-at :
      (b : Bool) (k j : Str) (e : CachedEntry B) (c : SchemaCache B)
      → get j (answered b k e c).1.l1 ≡ (if k == j && b then none else get j c.l1)
  answered-at true k j e c = ground (arith, get-remove k j c.l1)
  answered-at false k j e c = ground arith

  hydrated-keeps :
      (k j : Str) (now : ℕ) (o : Option (CachedEntry B)) (e : CachedEntry B) (c : SchemaCache B)
      → (k == j) ≡ false
      → get j c.l1 ≡ some e
      → get j (checked s k now (hydrated s k o c)).1.l1 ≡ some e
  hydrated-keeps k j now none e c apart g = g
  hydrated-keeps k j now (some x) e c apart g =
      let r = set_default k x c.l1 in
      rw (answered-at (is_expired r.0 c.ttl_seconds now) k j r.0 (record c { l1 = r.1 }))
        (rw apart (set_default-keeps k j x e c.l1 g))

  missed :
      (k j : Str) (db : Option D) (now : ℕ) (e : CachedEntry B) (c : SchemaCache B)
      → get k c.l1 ≡ none
      → (k == j) ≡ false
      → get j c.l1 ≡ some e
      → get j (get_entry s k db now c).1.l1 ≡ some e
  unfolding get_entry lookup
  missed k j none now e c miss apart g = rw (miss, looked_up) g
  missed k j (some d) now e c miss apart g =
      rw (miss, looked_up) (hydrated-keeps k j now (read_from_l2 s d) e c apart g)

  -- A read drops an entry only if it is the one that was asked for and it has expired, also when the
  -- read brings another entry in from the database.
  pub get_entry-evicts :
      (k j : Str) (db : Option D) (now : ℕ) (e : CachedEntry B) (c : SchemaCache B)
      → get j c.l1 ≡ some e
      → get j (get_entry s k db now c).1.l1
        ≡ (if k == j && is_expired e c.ttl_seconds now then none else some e)
  get_entry-evicts k j db now e c g = elim (Option-cases (get k c.l1)) [
    | inr (x, found) ↦
        rw (get_entry-hit k db now x c found)
          (ground (arith, eq_iff k j, answered-at (is_expired x c.ttl_seconds now) k j x c))
    | inl miss ↦
        let apart : (k == j) ≡ false =
          eq_of_ne k j λ same. absurd (cc (miss, g, ap (λ x. get x c.l1) same)) in
        rw apart (missed k j db now e c miss apart g)
  ]
