-- ===== src/Nl/Repair/Tests.antt =====
-- The theorems on the repair loop (arango_sparql/nl2sparql/repair.py) with a translator that accepts
-- queries of three characters, and a generator that lengthens what it wrote last.
use arango_sparql_py.Base.{◌+◌, ◌≤◌, ◌≡◌, true, false, Option, none, some, [], ◌∷◌, refl}
use arango_sparql_py.Base.Tests.{if◌then◌else◌, nat_beq}
use arango_sparql_py.Base.Lists.{length}
use arango_sparql_py.Base.Str.{Str, codes}
use arango_sparql_py.Nl.Repair.{SparqlError, run, tried}
use arango_sparql_py.Nl.Repair.Bounds.{counted_translator, counted_generator, run-calls}
use arango_sparql_py.Nl.Repair.Outcomes.{Honest, run-Honest}

abbrev too_short : SparqlError
too_short = record {
  code = codes "E_SPARQL_PARSE";
  message = codes "too short";
  is_unsupported = false;
}

abbrev three_long : Str → Str → Option SparqlError × Str
three_long sparql s = (if nat_beq (length sparql) 3 then none else some too_short, sparql)

abbrev lengthen : Str → Str → Str × Str
lengthen message s = (97 ∷ s, 97 ∷ s)

run_test :
    (run three_long lengthen 4 [] []).0
    ≡ record { sparql = codes "aaa"; attempts = 3; succeeded = true; last_error = none }
unfolding run tried
run_test = refl

run_out_test :
    (run three_long lengthen 2 [] []).0
    ≡ record { sparql = codes "aa"; attempts = 2; succeeded = false; last_error = some too_short }
unfolding run tried
run_out_test = refl

run-calls_example :
    let (outcome, c) =
      run
        (counted_translator three_long lengthen)
        (counted_generator three_long lengthen)
        4
        []
        ([], 0, 0) in
    (outcome.attempts ≤ 4) × (c.1 ≡ outcome.attempts + 1) × (c.2 ≡ outcome.attempts)
run-calls_example = run-calls three_long lengthen 4 [] []

run-Honest_example : Honest three_long lengthen 2 (run three_long lengthen 2 [] [])
run-Honest_example = run-Honest three_long lengthen 2 [] []
