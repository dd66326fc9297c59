-- ===== src/Schema/Persistent.antt =====
-- arango_sparql/schema/persistent_cache.py: `ArangoSchemaCache`, the stored tier, over a database
-- server of which each call returns or raises.
use arango_sparql_py.Base.{ℕ, Bool, true, false, Option, none, some, ◌∷◌}
use arango_sparql_py.Base.Tests.{if◌then◌else◌}
use arango_sparql_py.Base.Eq.{◌==◌, nat_eq}
use arango_sparql_py.Base.Str.{Str}

abbrev pub cache_schema_version : ℕ
cache_schema_version = 1

-- The cache document, its `_key` left out. `updated_at` is none where the field is no timestamp,
-- `bundle` where it is no object.
pub record Doc (W : Type 0) : Type 0 where
  pub schema_version : ℕ
  pub shape_fingerprint : Option Str
  pub full_fingerprint : Option Str
  pub producer : Option Str
  pub bundle : Option W
  pub updated_at : Option ℕ
  pub created_at : Option ℕ

-- What python-arango offers, on a server's state: `none` is an exception.
pub record Server (W D : Type 0) : Type 0 where
  pub has_collection : D → Option Bool
  pub create_collection : D → Option D
  pub read : D → Option (Option (Doc W))
  pub insert : Doc W → D → Option D
  pub update : Option Str → ℕ → D → Option D
  pub delete : D → Option (Bool × D)

pub record PersistedEntry (B : Type 0) : Type 0 where
  pub bundle : B
  pub shape_fingerprint : Option Str
  pub full_fingerprint : Option Str
  pub producer : Option Str
  pub updated_at : ℕ

-- `_optional_str`: an empty text counts as none
abbrev pub optional_str : Option Str → Option Str
optional_str (some (c ∷ s)) = some (c ∷ s)
optional_str _ = none

module _ {B W : Type 0} where
  -- the decoding of a document; `from_doc` is `bundle_from_doc`, none for its exceptions
  abbrev pub decode_parts : Doc W → Option ℕ → Option B → Option (PersistedEntry B)
  decode_parts doc (some updated_at) (some bundle) = some (record {
    bundle = bundle;
    shape_fingerprint = optional_str doc.shape_fingerprint;
    full_fingerprint = optional_str doc.full_fingerprint;
    producer = optional_str doc.producer;
    updated_at = updated_at;
  })
  decode_parts doc _ _ = none

  abbrev pub decode_bundle : (W → Option B) → Option W → Option B
  decode_bundle from_doc none = none
  decode_bundle from_doc (some w) = from_doc w

  unfoldable pub decode : (W → Option B) → Doc W → Option (PersistedEntry B)
  decode from_doc doc =
      if doc.schema_version == cache_schema_version
      then decode_parts doc doc.updated_at (decode_bundle from_doc doc.bundle)
      else none

  abbrev decode_read : (W → Option B) → Option (Option (Doc W)) → Option (PersistedEntry B)
  decode_read from_doc (some (some doc)) = decode from_doc doc
  decode_read from_doc _ = none

module _ {B W D : Type 0} where
  abbrev pub get_in : Server W D → (W → Option B) → D → Option Bool → Option (PersistedEntry B)
  get_in server from_doc d (some true) = decode_read from_doc (server.read d)
  get_in server from_doc d _ = none

  -- `ArangoSchemaCache.get`
  unfoldable pub stored_get : Server W D → (W → Option B) → D → Option (PersistedEntry B)
  stored_get server from_doc d = get_in server from_doc d (server.has_collection d)

module _ {W : Type 0} where
  abbrev pub earlier_created_at : Option (Option (Doc W)) → ℕ → Option ℕ
  earlier_created_at (some (some doc)) stamp = elim doc.created_at [
    | none ↦ some stamp
    | some t ↦ some t
  ]
  earlier_created_at _ stamp = some stamp

  abbrev pub new_doc : W → Option Str → Option Str → Str → ℕ → Option ℕ → Doc W
  new_doc bundle shape full producer stamp created_at = record {
    schema_version = cache_schema_version;
    shape_fingerprint = shape;
    full_fingerprint = full;
    producer = some producer;
    bundle = some bundle;
    updated_at = some stamp;
    created_at = created_at;
  }

-- the answer, and the server after it; a collection that was created stays
abbrev pub inserted : {D : Type 0} → D → Option D → Bool × D
inserted d none = (false, d)
inserted d (some e) = (true, e)

abbrev deleted : {D : Type 0} → D → Option (Bool × D) → Bool × D
deleted d none = (false, d)
deleted d (some r) = r

module _ {W D : Type 0} (server : Server W D) where
  abbrev pub ensure_in : D → Option Bool → Option D
  ensure_in d none = none
  ensure_in d (some true) = some d
  ensure_in d (some false) = server.create_collection d

  -- `_ensure_collection`
  unfoldable pub ensure_collection : D → Option D
  ensure_collection d = ensure_in d (server.has_collection d)

  abbrev pub set_in : W → Option Str → Option Str → Str → ℕ → D → Option D → Bool × D
  set_in bundle shape full producer stamp d none = (false, d)
  set_in bundle shape full producer stamp d (some e) = inserted e (
      server.insert
        (new_doc bundle shape full producer stamp (earlier_created_at (server.read e) stamp)) e)

  -- `ArangoSchemaCache.set`; `writes` is what `self._writes()` returns
  unfoldable pub stored_set : Bool → W → Option Str → Option Str → Str → ℕ → D → Bool × D
  stored_set writes bundle shape full producer stamp d =
      if writes then set_in bundle shape full producer stamp d (ensure_collection d) else (false, d)

  abbrev pub touch_in : Option Str → ℕ → D → Option Bool → Bool × D
  touch_in full stamp d (some true) = inserted d (server.update full stamp d)
  touch_in full stamp d _ = (false, d)

  -- `ArangoSchemaCache.touch`
  unfoldable pub touch : Option Str → ℕ → D → Bool × D
  touch full stamp d = touch_in full stamp d (server.has_collection d)

  abbrev pub invalidate_in : D → Option Bool → Bool × D
  invalidate_in d (some true) = deleted d (server.delete d)
  invalidate_in d _ = (false, d)

  -- `ArangoSchemaCache.invalidate`
  unfoldable pub stored_invalidate : Bool → D → Bool × D
  stored_invalidate writes d =
      if writes then invalidate_in d (server.has_collection d) else (false, d)
