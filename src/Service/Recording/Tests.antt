-- ===== src/Service/Recording/Tests.antt =====
-- The theorems on recorded questions (arango_sparql/service/recording.py), at a session that generated
-- one query.
use arango_sparql_py.Base.{
  ◌≡◌, ◌⊎◌, true, false, Option, none, some, List, [], ◌∷◌, ◌++◌, refl, inl,
}
use arango_sparql_py.Base.AnyOf.{AnyOf}
use arango_sparql_py.Base.Eq.{nat_eq, list_eq}
use arango_sparql_py.Base.Dict.{get, put}
use arango_sparql_py.Base.Str.{Str, codes}
use arango_sparql_py.Service.Recording.{
  Session, World, Outcome, drop_oldest, remembered, key_of, remember_generated, kept_question,
  record_kept, record_question,
}
use Outcome.{answered, not_recorded}
use arango_sparql_py.Service.Recording.Log.{Ask, IsLogged, IsKept, IsRepeated}
use arango_sparql_py.Service.Recording.Answered.{record_question-IsLogged, answered_is_recorded}

abbrev same : Str → Str
same s = s

abbrev asked : Str
asked = codes "who knows whom"

abbrev sparql : Str
sparql = codes "SELECT * WHERE { ?a ?p ?b }"

abbrev opened : Session
opened = record { generated = some []; recorded = some [] }

abbrev start : World
start = record { session = remember_generated same asked sparql opened; history = [] }

start-IsLogged : IsLogged same [] start
unfolding remember_generated
start-IsLogged = record { sends = refl; logged = tt }

abbrev once : World
once = (record_question same sparql (some asked) false true none true 5 start).1

abbrev first : Ask
first = record { question = some asked; query = sparql; ran = none; at = 5 }

record_question-IsLogged_example :
    (log' : List Ask) × (kept : Option Str) × IsKept same true (some asked) sparql start kept
    × ((log' ≡ [])
        ⊎ (log' ≡ [] ++ record { question = kept; query = sparql; ran = none; at = 5 } ∷ []))
    × IsLogged same log' once
record_question-IsLogged_example =
    record_question-IsLogged same sparql (some asked) false true none true 5 start [] start-IsLogged

once-IsLogged : IsLogged same (first ∷ []) once
unfolding record_question record_kept kept_question key_of remember_generated remembered drop_oldest
    get put
once-IsLogged = record { sends = refl; logged = (inl (refl, refl), tt) }

-- the graph view's run, which the control plane is not asked to record
rerun_test : (record_question same sparql (some asked) true true none false 9 once).0 ≡ answered
unfolding record_question record_kept kept_question key_of remember_generated remembered drop_oldest
    get put
rerun_test = refl

answered_is_recorded_example :
    (kept : Option Str) × IsKept same true (some asked) sparql once kept
    × (((true ≡ true)
          × AnyOf (IsRepeated same kept sparql 9) (first ∷ [])
          × ((record_question same sparql (some asked) true true none false 9 once).1.history
              ≡ once.history))
        ⊎ ((record_question same sparql (some asked) true true none false 9 once).1.history
            ≡ once.history ++ record { question = kept; query = sparql } ∷ []))
answered_is_recorded_example =
    answered_is_recorded same sparql (some asked) true true none false 9 once (first ∷ [])
      once-IsLogged rerun_test

-- later than the re-run time, or with other words, it has to be recorded
lost_test :
    (record_question same sparql (some asked) true true none false 600000005 once).0 ≡ not_recorded
unfolding record_question record_kept kept_question key_of remember_generated remembered drop_oldest
    get put
lost_test = refl
