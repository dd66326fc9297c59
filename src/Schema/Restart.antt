-- ===== src/Schema/Restart.antt =====
-- The stored tier across a restart, and under read-only access
-- (arango_sparql/schema/cache.py, arango_sparql/schema/persistent_cache.py).
use arango_sparql_py.Base.{ℕ, ◌≡◌, true, Option, some, refl}
use arango_sparql_py.Base.Eq.{nat_eq, list_eq}
use arango_sparql_py.Base.Dict.{get}
use arango_sparql_py.Base.Str.{Str}
use arango_sparql_py.Schema.Persistent.{Doc, Server, inserted, touch_in, touch}
use arango_sparql_py.Schema.Cache.{restamped, revalidated}
use arango_sparql_py.Schema.Settings.{CachedEntry, SchemaCache, Setting}

-- What is relied on of the database: the document of a successful insert into a collection is what
-- is read from the collection next.
pub record ReadsBack {W D : Type 0} (server : Server W D) : Type 0 where
  pub present :
      (doc : Doc W) (d d' : D)
      → server.insert doc d ≡ some d'
      → server.has_collection d' ≡ some true
  pub held :
      (doc : Doc W) (d d' : D) → server.insert doc d ≡ some d' → server.read d' ≡ some (some doc)

module _ {B W D : Type 0} (s : Setting B W D) where
  -- Revalidating an entry that is in the cache updates the stored document where there is a
  -- collection and the update succeeds; whether the cache may write is not asked.
  pub revalidated_writes :
      (k : Str) (d d' : D) (counts : Option Str) (now : ℕ) (c : SchemaCache B) (e : CachedEntry B)
      → get k c.l1 ≡ some e
      → s.server.has_collection d ≡ some true
      → s.server.update counts now d ≡ some d'
      → (revalidated s k (some d) counts now c).2 ≡ some d'
  unfolding revalidated touch
  revalidated_writes k d d' counts now c e found has update =
      rw (found, restamped) (rw (has, touch_in) (rw (update, inserted) refl))
