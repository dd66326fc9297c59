-- ===== src/Translate/Resolver/Families.antt =====
-- The shard families of arango_sparql/translate/resolver.py: their reading and the index of collections.
pub mod Canonical
pub mod Index
use arango_sparql_py.Base.{◌≡◌, Bool, true, false, not, Option, none, some, List, [], ◌∷◌, map}
use arango_sparql_py.Base.Tests.{if◌then◌else◌}
use arango_sparql_py.Base.Eq.{◌==◌, nat_eq, list_eq}
use arango_sparql_py.Base.Lists.{is_nil, keep}
use arango_sparql_py.Base.Order.{nat_order, list_order, sorted}
use arango_sparql_py.Base.Dict.{Dict, get, put}
use arango_sparql_py.Base.Json.{Json, items}
use arango_sparql_py.Base.Str.{Str, codes}
use arango_sparql_py.Errors.{Error, Result, ◌>>=◌}
use arango_sparql_py.Schema.Scope.{texts}
use Json.{null, boolean, integer, float, text, array, object}
use Error.{schema_error}
use Result.{ok, err}

abbrev pub Family : Type 0
Family = List Str

-- the texts of a list, and none of what is no list
unfoldable pub family_of : Json → Family
family_of (array js) = sorted (texts (items js))
family_of _ = []

abbrev pub listed : Option Json → List Json
listed (some (array js)) = items js
listed _ = []

-- `_project_shard_families`; the key of a family orders as the family itself
unfoldable pub projected : List Json → List Family
projected js = sorted (keep (λ f. not (is_nil f)) (map family_of js))

abbrev pub project_shard_families : Dict Str Json → List Family
project_shard_families physical_mapping =
    projected (listed (get (codes "shardFamilies") physical_mapping))

abbrev pub Families : Type 0
Families = Dict Str Family

abbrev pub clashes : Family → Option Family → Bool
clashes family none = false
clashes family (some other) = not (other == family)

unfoldable pub index_members : Family → List Str → Families → Result Families
index_members family [] index = ok index
index_members family (c ∷ cs) index =
    let rest = index_members family cs (put c family index) in
    if clashes family (get c index) then err schema_error else rest

unfoldable pub index_families : List Family → Families → Result Families
index_families [] index = ok index
index_families (f ∷ fs) index = index_members f f index >>= index_families fs

-- `_shard_family_by_collection`, which `__post_init__` builds
unfoldable pub family_by_collection : List Family → Result Families
family_by_collection fs = index_families fs []
