-- ===== src/Translate/Advisories.antt =====
-- arango_sparql/translate/advisories.py with the caches of arango_sparql/translate/resolver.py: what a
-- translation reports of the IRIs that it resolves. A resolution is a script of the advisories that it
-- raises and of the resolutions that it calls for.
pub mod Transparent
mod Tests
use arango_sparql_py.Base.{
  Bool, true, false, not, ◌||◌, ◌&&◌, Option, none, some, List, [], ◌∷◌, ◌++◌, map,
}
use arango_sparql_py.Base.Tests.{if◌then◌else◌}
use arango_sparql_py.Base.Eq.{◌==◌, nat_eq, list_eq, pair_eq}
use arango_sparql_py.Base.Lists.{contains}
use arango_sparql_py.Base.Dict.{Dict, get, put}
use arango_sparql_py.Base.Str.{Str}

pub record Advisory : Type 0 where
  pub code : Str
  pub message : Str
  pub iri : Str
  pub extra : Dict Str Str

-- the kind and the key of a cache entry
abbrev pub Key : Type 0
Key = Str × Str

-- `warnings`, `_warned_keys` and the stack of `_captures`, the innermost first
pub record Reports : Type 0 where
  pub warnings : List Advisory
  pub warned_keys : List (Str × Str)
  pub captures : List (List Advisory)

-- the advisory log with `_entry_warnings`, and the keys of the resolver's caches
pub record Log : Type 0 where
  pub reports : Reports
  pub entry_warnings : Dict Key (List Advisory)
  pub cached : List Key

abbrev pub key_of : Advisory → Str × Str
key_of e = (e.code, e.iri)

-- `_record`
unfoldable pub record_advisory : Advisory → Reports → Reports
record_advisory e r =
    if contains (key_of e) r.warned_keys
    then r
    else record r { warned_keys = key_of e ∷ r.warned_keys; warnings = r.warnings ++ e ∷ [] }

-- `_warn_schema`
unfoldable pub warn_schema : Advisory → Reports → Reports
warn_schema e r =
    record_advisory e (record r { captures = map (λ captured. captured ++ e ∷ []) r.captures })

unfoldable pub warn_all : List Advisory → Reports → Reports
warn_all [] r = r
warn_all (e ∷ es) r = warn_all es (warn_schema e r)

abbrev pub remembered : Option (List Advisory) → List Advisory
remembered none = []
remembered (some es) = es

-- `_replay`
unfoldable pub replay : Key → Log → Log
replay k l = record l { reports = warn_all (remembered (get k l.entry_warnings)) l.reports }

abbrev pub top : List (List Advisory) → List Advisory
top [] = []
top (c ∷ cs) = c

abbrev pub below : List (List Advisory) → List (List Advisory)
below [] = []
below (c ∷ cs) = cs

abbrev pub push : List Advisory → Reports → Reports
push c r = record r { captures = c ∷ r.captures }

-- `_capture` around what the resolution does
unfoldable pub capture : Key → (Log → Log) → Log → Log
capture k resolve l =
    let l' = resolve (record l { reports = push [] l.reports }) in
    record l' {
      reports = record l'.reports { captures = below l'.reports.captures };
      entry_warnings = put k (top l'.reports.captures) l'.entry_warnings;
    }

pub data Script : Type 0 where
  done : Script
  warn : Advisory → Script → Script
  resolve : Key → Script → Script → Script

abbrev pub mark : Key → Log → Log
mark k l = record l { cached = k ∷ l.cached }

-- `resolve_class`, `resolve_property` and `attribute_uri_map`: from the cache, or captured and cached
unfoldable pub run : Script → Log → Log
run done l = l
run (warn e s) l = run s (record l { reports = warn_schema e l.reports })
run (resolve k body s) l =
    run s
      (elim (contains k l.cached) [ true ↦ replay k l | false ↦ mark k (capture k (run body) l) ])

-- `_quietly` around a script
unfoldable pub quietly : Script → Log → Log
quietly s l =
    let l' = run s (record l { reports = record l.reports { captures = [] } }) in
    record l' { reports = l.reports }

abbrev pub record_all : List Advisory → Reports → Reports
record_all [] r = r
record_all (e ∷ es) r = record_all es (record_advisory e r)

-- `collecting_warnings` around a script: what it yields in the end, and the log after it
unfoldable pub collecting_warnings : Script → Log → List Advisory × Log
collecting_warnings s l =
    let l' = run s (record l { reports = record l.reports { warnings = []; warned_keys = [] } }) in
    let outer = record l'.reports {
      warnings = l.reports.warnings;
      warned_keys = l.reports.warned_keys;
    } in
    (l'.reports.warnings, record l' { reports = record_all l'.reports.warnings outer })
