-- ===== src/Translate/Advisories/Tests.antt =====
-- Two translations with one resolver (arango_sparql/translate/advisories.py).
use arango_sparql_py.Base.{◌≡◌, [], ◌∷◌, refl}
use arango_sparql_py.Base.Eq.{nat_eq, list_eq, pair_eq}
use arango_sparql_py.Base.Dict.{get, put}
use arango_sparql_py.Base.Str.{codes}
use arango_sparql_py.Translate.Advisories.{
  Advisory, Key, Log, Script, record_advisory, warn_schema, warn_all, replay, capture, run,
  collecting_warnings,
}
use arango_sparql_py.Translate.Advisories.Transparent.{
  emitted, IsConsistent, firsts, collecting_warnings-Complete,
}
use Script.{done, warn, resolve}

abbrev unmapped : Key → Advisory
unmapped k = record { code = codes "W_SCHEMA_UNMAPPED_IRI"; message = []; iri = k.1; extra = [] }

-- every resolution raises one advisory on its IRI
abbrev resolution : Key → Script
resolution k = warn (unmapped k) done

abbrev city : Key
city = (codes "property", codes "urn:city")

abbrev twice : Script
twice = resolve city (resolution city) (resolve city (resolution city) done)

abbrev fresh : Log
fresh = record {
  reports = record { warnings = []; warned_keys = []; captures = [] };
  entry_warnings = [];
  cached = [];
}

fresh-IsConsistent : IsConsistent resolution fresh
fresh-IsConsistent k h = absurd (cc h)

abbrev later : Log
later = (collecting_warnings twice fresh).1

collecting_warnings-Complete_example :
    ((collecting_warnings twice later).0 ≡ firsts [] (emitted twice))
    × IsConsistent resolution (collecting_warnings twice later).1
collecting_warnings-Complete_example =
    collecting_warnings-Complete resolution twice later (refl, tt, (refl, tt, tt))
      (collecting_warnings-Complete resolution twice fresh (refl, tt, (refl, tt, tt))
        fresh-IsConsistent).1

second_test : (collecting_warnings twice later).0 ≡ unmapped city ∷ []
unfolding collecting_warnings run capture replay warn_all warn_schema record_advisory get put
second_test = refl
