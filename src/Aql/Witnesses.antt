-- ===== src/Aql/Witnesses.antt =====
-- The theorems on the builder of arango_sparql/translate/builder.py, at small queries.
use arango_sparql_py.Base.{◌≡◌, refl, false, [], ◌∷◌, none, some, ◌⊎◌}
use arango_sparql_py.Base.Tests.{if◌then◌else◌}
use arango_sparql_py.Base.Eq.{◌==◌, nat_eq, list_eq}
use arango_sparql_py.Base.Dict.{Dict, get, put}
use arango_sparql_py.Base.Str.{Str, codes}
use arango_sparql_py.Errors.{ok, err, aql_emit_error}
use arango_sparql_py.Aql.Names.{object_key, can_backtick_quote}
use arango_sparql_py.Aql.Names.Quoting.{Reads, object_key-Reads}
use arango_sparql_py.Aql.State.{Value, str, other, Builder, empty_builder, seed, new_builder}
use arango_sparql_py.Aql.Mint.{bind, bind_collection, collection_bound_to}
use arango_sparql_py.Aql.Output.{return_scalar}
use arango_sparql_py.Aql.Finalize.{finalize, create_child, absorb_child, lines}
use arango_sparql_py.Aql.Fresh.{IsFresh}
use arango_sparql_py.Aql.Fresh.Seed.{empty-IsFresh, new_builder-IsFresh}
use arango_sparql_py.Aql.Fresh.Placeholders.{bind_is_new, bind_collection_resolves}
use arango_sparql_py.Aql.Fresh.Absorb.{advanced}
use arango_sparql_py.Aql.Fresh.Program.{
  method, sub_query, Script, done, next, run, run_all, run_all-IsFresh, absorb_never_collides,
}
use arango_sparql_py.Aql.Fresh.Program.Calls.{Method, run_method}
use arango_sparql_py.Aql.Tests.{running, ascii}

-- a scan with a value filter, in a parent or a child
abbrev scan_people : Script
scan_people = next (method (Method.bind_call (other 7) (some (codes "age")))) (
    next (method (Method.for_call (codes "d") (codes "Person"))) (
      next (method (Method.eq_call (codes "d.age") (codes "@_p1_age")))
        (next (method (Method.scalar_call (codes "d"))) done)))

abbrev nested : Script
nested = next (sub_query scan_people) (next (sub_query scan_people) scan_people)

run_all-IsFresh_example : IsFresh (run_all ⦃u = ascii⦄ nested empty_builder).1
run_all-IsFresh_example = run_all-IsFresh ⦃u = ascii⦄ nested empty_builder empty-IsFresh

abbrev seeded : Builder
seeded = record empty_builder { bind_vars = (codes "tenant", str (codes "acme")) ∷ [] }

new_builder-IsFresh_example : IsFresh seeded
unfolding new_builder seed put
new_builder-IsFresh_example =
    new_builder-IsFresh ((codes "tenant", str (codes "acme")) ∷ []) seeded refl

abbrev child_text : Str
child_text =
    lines (codes "FOR d IN @@c1_Person" ∷ codes "FILTER d.age == @_p1_age" ∷ codes "RETURN d" ∷ [])

abbrev child_binds : Dict Str Value
child_binds = (codes "_p1_age", other 7) ∷ (codes "@c1_Person", str (codes "Person")) ∷ []

abbrev finished_child : Builder
finished_child =
    (finalize ⦃u = ascii⦄ (run_all ⦃u = ascii⦄ scan_people (create_child empty_builder)).1).1

absorb_never_collides_example :
    (vars : Dict Str Value) × (absorb_child ⦃u = ascii⦄
        (run_all ⦃u = ascii⦄ scan_people (create_child empty_builder)).1
        empty_builder
      ≡ (ok child_text, advanced empty_builder finished_child vars))
    × ((k : Str) (v : Value) → get k child_binds ≡ some v → get k vars ≡ some v)
    × ((k : Str) (v : Value) → get k empty_builder.bind_vars ≡ some v → get k vars ≡ some v)
unfolding running run run_all run_method return_scalar
absorb_never_collides_example =
    absorb_never_collides ⦃u = ascii⦄ scan_people empty_builder finished_child child_text
      child_binds empty-IsFresh refl

bind_is_new_example :
    (name : Str) × (codes "@_p1_attr" ≡ 64 ∷ name)
    × (get name empty_builder.bind_vars ≡ none)
    × ((k : Str)
        → get k (bind (other 7) (some (codes "attr")) empty_builder).1.bind_vars
          ≡ (if name == k then some (other 7) else get k empty_builder.bind_vars))
unfolding running
bind_is_new_example =
    bind_is_new (other 7) (some (codes "attr")) empty_builder
      (bind (other 7) (some (codes "attr")) empty_builder).1 (codes "@_p1_attr") empty-IsFresh refl

abbrev bound : Builder
bound = (bind_collection ⦃u = ascii⦄ (codes "IAM-X") empty_builder).1

bind_collection_resolves_example :
    collection_bound_to (codes "@@c1_IAM_X") bound ≡ some (codes "IAM-X")
unfolding running
bind_collection_resolves_example =
    bind_collection_resolves ⦃u = ascii⦄ (codes "IAM-X") empty_builder bound (codes "@@c1_IAM_X")
      empty-IsFresh refl

object_key-Reads_example :
    ((written : Str) × (object_key (codes "order by") ≡ ok written)
      × Reads written (codes "order by"))
    ⊎ ((object_key (codes "order by") ≡ err aql_emit_error)
        × (can_backtick_quote (codes "order by") ≡ false))
object_key-Reads_example = object_key-Reads (codes "order by") refl

abbrev one_alias : Builder
one_alias = record empty_builder { alias_counter = 1 }

abbrev two_aliases : Builder
two_aliases = record empty_builder { alias_counter = 2 }
