-- ===== src/Aql/Fresh/Program/Outputs.antt =====
-- The same for the methods of translate/builder.py that set the output, and for `finalize`.
use arango_sparql_py.Base.{refl, Bool, true, false, List, [], ◌∷◌, Option, none, some}
use arango_sparql_py.Base.Dict.{Dict}
use arango_sparql_py.Base.Str.{Str}
use arango_sparql_py.Aql.State.{Value, Builder, Clause, modify}
use arango_sparql_py.Aql.Mint.{Unicode}
use arango_sparql_py.Aql.Keeps.{Keeps, Keeps-pure, Keeps-bind, keeps_rules}
use arango_sparql_py.Aql.Output.{
  no_return_yet, set_return, return_object, return_scalar, return_triples, return_triples_subquery,
  set_ask_mode, set_empty_result_fallback, clear_empty_result_fallback, warn,
}
use arango_sparql_py.Aql.Finalize.{
  assemble, finalize, finalize_with, bind_all, body_of, distinct_body, fallback_body, dedup_body,
}
use arango_sparql_py.Aql.Fresh.Program.Methods.{OfNames, modify-Keeps, fresh_alias-Keeps}

module _ ⦃u : Unicode⦄ {P : Builder → Type 0} (names : OfNames P) where
  pub set_return-Keeps : (text : Str) → Keeps P (set_return text)
  unfolding set_return modify
  set_return-Keeps text = record { at = λ b h. names.stable b _ ((refl, refl, refl, refl)) h }

  pub no_return_yet-Keeps : Keeps P no_return_yet
  unfolding no_return_yet
  no_return_yet-Keeps = search (keeps_rules)

  pub set_distinct-Keeps : (d : Bool) → Keeps P (modify (λ b. record b { return_distinct = d }))
  set_distinct-Keeps d = modify-Keeps names _ λ b. (refl, refl, refl, refl)

  pub return_object-Keeps :
      (mapping : List (Str × Str)) (distinct : Bool) → Keeps P (return_object mapping distinct)
  unfolding return_object
  return_object-Keeps mapping distinct =
      search (keeps_rules, no_return_yet-Keeps, set_return-Keeps, set_distinct-Keeps)

  pub return_scalar-Keeps : (expression : Str) → Keeps P (return_scalar expression)
  unfolding return_scalar
  return_scalar-Keeps expression = search (keeps_rules, no_return_yet-Keeps, set_return-Keeps)

  pub return_triples-Keeps : (triples : List (Str × Str × Str)) → Keeps P (return_triples triples)
  unfolding return_triples
  return_triples-Keeps triples = search (keeps_rules, no_return_yet-Keeps, set_return-Keeps)

  pub return_triples_subquery-Keeps : (subquery : Str) → Keeps P (return_triples_subquery subquery)
  unfolding return_triples_subquery
  return_triples_subquery-Keeps subquery =
      search (keeps_rules, no_return_yet-Keeps, set_return-Keeps)

  pub set_ask_mode-Keeps : Keeps P set_ask_mode
  unfolding set_ask_mode modify
  set_ask_mode-Keeps = record { at = λ b h. names.stable b _ ((refl, refl, refl, refl)) h }

  pub set_empty_result_fallback-Keeps : Keeps P set_empty_result_fallback
  unfolding set_empty_result_fallback modify
  set_empty_result_fallback-Keeps = record {
    at = λ b h. names.stable b _ ((refl, refl, refl, refl)) h;
  }

  pub clear_empty_result_fallback-Keeps : Keeps P clear_empty_result_fallback
  unfolding clear_empty_result_fallback modify
  clear_empty_result_fallback-Keeps = record {
    at = λ b h. names.stable b _ ((refl, refl, refl, refl)) h;
  }

  pub warn-Keeps : (code message : Str) (extra : Dict Str Value) → Keeps P (warn code message extra)
  unfolding warn modify
  warn-Keeps code message extra = record {
    at = λ b h. names.stable b _ ((refl, refl, refl, refl)) h;
  }

  pub bind_all-Keeps : (members : List Str) → Keeps P (bind_all members)
  unfolding bind_all
  bind_all-Keeps [] = search keeps_rules
  bind_all-Keeps (name ∷ members) =
      Keeps-bind _ _ (names.coll_keeps name)
        λ ref. Keeps-bind _ _ (bind_all-Keeps members) λ refs. Keeps-pure (ref ∷ refs)

  pub fallback_body-Keeps :
      (inner : List Str) (limit_clause : Option Clause) → Keeps P (fallback_body inner limit_clause)
  unfolding fallback_body
  fallback_body-Keeps inner limit_clause = search (keeps_rules, fresh_alias-Keeps names)

  pub dedup_body-Keeps :
      (inner : List Str) (limit_clause : Clause) → Keeps P (dedup_body inner limit_clause)
  unfolding dedup_body
  dedup_body-Keeps inner limit_clause = search (keeps_rules, fresh_alias-Keeps names)

  pub distinct_body-Keeps :
      (ordered : List Str) (limit_clause : Option Clause) (distinct : Bool) (ret : Clause)
      → Keeps P (distinct_body ordered limit_clause distinct ret)
  distinct_body-Keeps ordered none true ret = search keeps_rules
  distinct_body-Keeps ordered none false ret = search keeps_rules
  distinct_body-Keeps ordered (some l) true ret = search (keeps_rules, dedup_body-Keeps)
  distinct_body-Keeps ordered (some l) false ret = search keeps_rules

  pub body_of-Keeps : (b : Builder) (ret : Clause) → Keeps P (body_of b ret)
  body_of-Keeps b ret = search (keeps_rules, fallback_body-Keeps, distinct_body-Keeps)

  pub body_now-Keeps : (ret : Clause) → Keeps P (λ b. body_of b ret b)
  body_now-Keeps ret = record { at = λ b h. (body_of-Keeps b ret).at b h }

  pub assemble-Keeps : (ret : Clause) → Keeps P (assemble ret)
  unfolding assemble
  assemble-Keeps ret = search (keeps_rules, bind_all-Keeps, body_now-Keeps) depth 14

  pub finalize_with-Keeps : (ret : Option Clause) → Keeps P (finalize_with ret)
  finalize_with-Keeps none = search keeps_rules
  finalize_with-Keeps (some ret) = assemble-Keeps ret

  pub finalize-Keeps : Keeps P finalize
  unfolding finalize
  finalize-Keeps = record { at = λ b h. (finalize_with-Keeps b.return_clause).at b h }
