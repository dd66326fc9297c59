-- ===== src/Aql/Output.antt =====
-- RETURN and the output modes of `AqlQueryBuilder` (arango_sparql/translate/builder.py).
use arango_sparql_py.Base.{Bool, true, false, not, some, List, [], ◌∷◌, ◌++◌, map}
use arango_sparql_py.Base.Tests.{if◌then◌else◌, is_some}
use arango_sparql_py.Base.Lists.{is_nil, join}
use arango_sparql_py.Base.Dict.{Dict}
use arango_sparql_py.Base.Str.{Str, codes, strip}
use arango_sparql_py.Errors.{Result, ok, err, aql_emit_error}
use arango_sparql_py.Aql.Names.{object_key}
use arango_sparql_py.Aql.State.{Value, return_kind, Emit, lift, gets, modify, require, ◌>>=◌, ◌>>◌}

-- `if self._return_clause is not None: raise`
unfoldable pub no_return_yet : Emit (Unit {0})
unfolding ◌>>=◌ require
no_return_yet = do
  present ← gets (λ b. is_some b.return_clause)
  require (not present) aql_emit_error

unfoldable pub set_return : Str → Emit (Unit {0})
unfolding modify
set_return text =
    modify (λ b. record b { return_clause = some (record { kind = return_kind; text = text }) })

-- the entries of the returned object, in the order of the projection
unfoldable pub object_entries : List (Str × Str) → Result (List Str)
object_entries [] = ok []
object_entries ((name, expression) ∷ mapping) =
    let rest = object_entries mapping in
    elim (object_key name) [
      | err e ↦ err e
      | ok key ↦ elim rest [
        | err e ↦ err e
        | ok entries ↦ ok ((key ++ codes ": " ++ expression) ∷ entries)
      ]
    ]

unfoldable pub return_object : List (Str × Str) → Bool → Emit (Unit {0})
unfolding ◌>>=◌ no_return_yet set_return object_entries
return_object mapping distinct = do
  no_return_yet
  entries ← lift (object_entries mapping)
  set_return (
      (if distinct then codes "RETURN DISTINCT" else codes "RETURN")
      ++ codes " { "
      ++ join (codes ", ") entries
      ++ codes " }")
  modify (λ b. record b { return_distinct = distinct })

unfoldable pub return_scalar : Str → Emit (Unit {0})
unfolding ◌>>=◌ no_return_yet set_return
return_scalar expression = do no_return_yet; set_return (codes "RETURN " ++ expression)

abbrev triple_text : Str × Str × Str → Str
triple_text (s, p, o) =
    codes "{subject: " ++ s ++ codes ", predicate: " ++ p ++ codes ", object: " ++ o ++ codes "}"

unfoldable pub return_triples : List (Str × Str × Str) → Emit (Unit {0})
unfolding ◌>>=◌ no_return_yet set_return require
return_triples triples = do
  no_return_yet
  require (not (is_nil triples)) aql_emit_error
  set_return (codes "RETURN [" ++ join (codes ", ") (map triple_text triples) ++ codes "]")

unfoldable pub return_triples_subquery : Str → Emit (Unit {0})
unfolding ◌>>=◌ no_return_yet set_return require
return_triples_subquery subquery = do
  no_return_yet
  require (not (is_nil (strip subquery))) aql_emit_error
  set_return (codes "RETURN (" ++ subquery ++ codes ")")

unfoldable pub set_ask_mode : Emit (Unit {0})
unfolding modify
set_ask_mode = modify (λ b. record b { ask_mode = true })

unfoldable pub set_empty_result_fallback : Emit (Unit {0})
unfolding modify
set_empty_result_fallback = modify (λ b. record b { empty_result_fallback = true })

unfoldable pub clear_empty_result_fallback : Emit (Unit {0})
unfolding modify
clear_empty_result_fallback = modify (λ b. record b { empty_result_fallback = false })

unfoldable pub warn : Str → Str → Dict Str Value → Emit (Unit {0})
unfolding modify
warn code message extra = modify (λ b. record b {
  warnings = b.warnings ++ record { code = code; message = message; extra = extra } ∷ [];
})
