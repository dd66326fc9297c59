-- ===== src/Schema/Tests.antt =====
-- The theorems on the schema cache (arango_sparql/schema/cache.py and its neighbours) at a server
-- that keeps one document and never fails.
use arango_sparql_py.Base.{ℕ, ◌≡◌, Bool, true, Option, none, some, []}
use arango_sparql_py.Base.Tests.{is_some}
use arango_sparql_py.Base.Eq.{nat_eq, list_eq}
use arango_sparql_py.Base.Numbers.{pos}
use arango_sparql_py.Base.Str.{Str, codes, show}
use arango_sparql_py.Schema.Drift.{BundleFingerprint}
use arango_sparql_py.Schema.Persistent.{Doc, Server}
use arango_sparql_py.Schema.Cache.{get_entry, put_entry, persist_to_l2}
use arango_sparql_py.Schema.Settings.{CachedEntry, SchemaCache, Setting}
use arango_sparql_py.Schema.Lookups.{get_entry-put_entry}

abbrev Held : Type 0
Held = Option (Option (Doc ℕ))

abbrev restamp : Option Str → ℕ → Held → Option Held
restamp full stamp (some (some doc)) =
    some (some (some (record doc { full_fingerprint = full; updated_at = some stamp })))
restamp full stamp _ = none

abbrev read_held : Held → Option (Option (Doc ℕ))
read_held none = none
read_held (some o) = some o

abbrev memory : Server ℕ Held
memory = record {
  has_collection = λ d. some (is_some d);
  create_collection = λ d. some (some none);
  read = read_held;
  insert = λ doc d. some (some (some doc));
  update = restamp;
  delete = λ d. some (true, some none);
}

abbrev setting_with : Bool → Setting ℕ ℕ Held
setting_with writes = record {
  fingerprint_of =
      λ b t. record { shape = codes "s"; counts = codes "c"; payload_version = 1; computed_at = t };
  current_producer = codes "v1";
  to_doc = λ b. b;
  from_doc = λ w. some w;
  server = memory;
  writes = writes;
}

abbrev cold : SchemaCache ℕ
cold = record { ttl_seconds = pos 60; l1 = [] }

abbrev seven : CachedEntry ℕ
seven = (put_entry (setting_with true) (codes "db") 7 none none none none 5 cold).0

abbrev warm : SchemaCache ℕ
warm = (put_entry (setting_with true) (codes "db") 7 none none none none 5 cold).1

abbrev stored_seven : Held
stored_seven = (persist_to_l2 (setting_with true) seven none).1

get_entry-put_entry_example :
    (get_entry (setting_with true) (codes "db") none 60000004 warm).0 ≡ some seven
get_entry-put_entry_example =
    get_entry-put_entry (setting_with true) (codes "db") 7 none none none none none 5 60000004 cold

abbrev print_of : ℕ → BundleFingerprint
print_of n = record { shape = codes "s"; counts = show n; payload_version = 1; computed_at = n }
