-- ===== src/Nl/Repair/Outcomes.antt =====
-- What the result of the repair loop of arango_sparql/nl2sparql/repair.py says.
use arango_sparql_py.Base.{
  ℕ, zero, suc, ◌+◌, ◌≡◌, true, false, Option, none, some, refl, arith, inl, inr, ◌⊎◌,
}
use arango_sparql_py.Base.Str.{Str}
use arango_sparql_py.Nl.Repair.{SparqlError, RepairOutcome, format_repair_context, tried, run}

module _ {S : Type 0} (translator : Str → S → Option SparqlError × S)
    (generator : Str → S → Str × S) where
  -- The last call of the translator was on the query that is returned, and gave what is returned.
  abbrev pub Honest : ℕ → RepairOutcome × S → Type 0
  Honest budget r =
      (s : S) × (translator r.0.sparql s ≡ (r.0.last_error, r.1))
      × (((r.0.succeeded ≡ true) × (r.0.last_error ≡ none))
          ⊎ ((e : SparqlError) × (r.0.succeeded ≡ false)
              × (r.0.last_error ≡ some e)
              × (r.0.attempts ≡ budget)))

  tried-Honest :
      (left attempt budget : ℕ) (sparql : Str) (s : S)
      → attempt + left ≡ budget
      → Honest budget (tried translator generator left attempt sparql (translator sparql s))
  unfolding tried
  tried-Honest left attempt budget sparql s h =
      go left attempt sparql s (translator sparql s) h refl
    where
      go :
          (left attempt : ℕ) (sparql : Str) (s : S) (r : Option SparqlError × S)
          → attempt + left ≡ budget
          → translator sparql s ≡ r
          → Honest budget (tried translator generator left attempt sparql r)
      go left attempt sparql s (none, end) h e = (s, e, inl (refl, refl))
      go zero attempt sparql s (some x, end) h e = (s, e, inr (x, refl, refl, omega (arith, h)))
      go (suc left) attempt sparql s (some x, end) h e =
          let (next, s') = generator (format_repair_context x) end in
          go left (attempt + 1) next s' (translator next s') (omega (arith, h)) refl

  -- The query that the loop returns is the one that it gave the translator last. It is reported as a
  -- success exactly with no error, so that the translator accepted it; otherwise the error is the one
  -- that the translator gave for it, and every repair was used up.
  pub run-Honest :
      (max_repairs : ℕ) (first_sparql : Str) (s : S)
      → Honest max_repairs (run translator generator max_repairs first_sparql s)
  unfolding run
  run-Honest max_repairs first_sparql s =
      tried-Honest max_repairs 0 max_repairs first_sparql s (omega arith)
