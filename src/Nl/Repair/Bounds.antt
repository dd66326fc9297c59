-- ===== src/Nl/Repair/Bounds.antt =====
-- How often the repair loop of arango_sparql/nl2sparql/repair.py calls the translator and the
-- generator, and how long its messages are.
use arango_sparql_py.Base.{
  ℕ, zero, suc, ◌+◌, ◌≤◌, ◌≡◌, Bool, true, false, Option, none, some, [], ◌∷◌, arith, inl, inr,
}
use arango_sparql_py.Base.Tests.{ltb, Bool-cases}
use arango_sparql_py.Base.Lists.{length, take, length-append}
use arango_sparql_py.Base.Str.{Str, codes}
use arango_sparql_py.Nl.Repair.{SparqlError, shortened, hint, format_repair_context, tried, run}

-- The callables with a count of their calls.
abbrev pub Counted : Type 0 → Type 0
Counted S = S × ℕ × ℕ

module _ {S : Type 0} (translator : Str → S → Option SparqlError × S)
    (generator : Str → S → Str × S) where
  abbrev pub counted_translator : Str → Counted S → Option SparqlError × Counted S
  counted_translator sparql (s, t, g) =
      let (answer, s') = translator sparql s in (answer, (s', t + 1, g))

  abbrev pub counted_generator : Str → Counted S → Str × Counted S
  counted_generator message (s, t, g) =
      let (sparql, s') = generator message s in (sparql, (s', t, g + 1))

  tried-calls :
      (left attempt : ℕ) (sparql : Str) (o : Option SparqlError) (s : S) (t g : ℕ)
      → let (outcome, c) =
          tried counted_translator counted_generator left attempt sparql (o, (s, t, g)) in
        (outcome.attempts ≤ attempt + left)
        × (c.1 + attempt ≡ t + outcome.attempts)
        × (c.2 + attempt ≡ g + outcome.attempts)
  unfolding tried
  tried-calls left attempt sparql none s t g = (omega arith, omega arith, omega arith)
  tried-calls zero attempt sparql (some e) s t g = (omega arith, omega arith, omega arith)
  tried-calls (suc left) attempt sparql (some e) s t g =
      let (next, s') = generator (format_repair_context e) s in
      let (o, s'') = translator next s' in
      let (le, ts, gs) = tried-calls left (attempt + 1) next o s'' (t + 1) (g + 1) in
      (omega (arith, le), omega (arith, ts), omega (arith, gs))

  -- The loop makes at most `max_repairs` repairs; it calls the generator once for each repair, and the
  -- translator once more than that.
  pub run-calls :
      (max_repairs : ℕ) (first_sparql : Str) (s : S)
      → let (outcome, c) =
          run counted_translator counted_generator max_repairs first_sparql (s, 0, 0) in
        (outcome.attempts ≤ max_repairs) × (c.1 ≡ outcome.attempts + 1) × (c.2 ≡ outcome.attempts)
  unfolding run
  run-calls max_repairs first_sparql s =
      let (o, s') = translator first_sparql s in
      let (le, ts, gs) = tried-calls max_repairs 0 first_sparql o s' 1 0 in
      (omega (arith, le), omega (arith, ts), omega (arith, gs))

not_longer : (msg : Str) → ltb 600 (length msg) ≡ false → length msg ≤ 602
not_longer msg h = ground arith

length-take-le : (n : ℕ) (s : Str) → length (take n s) ≤ n
length-take-le zero s = omega arith
length-take-le (suc n) [] = omega arith
length-take-le (suc n) (c ∷ s) = omega (arith, length-take-le n s)

length-shortened-le : (msg : Str) → length (shortened msg) ≤ 602
length-shortened-le msg = elim (Bool-cases (ltb 600 (length msg))) [
  | inl long ↦
      rw long (omega (arith, length-append (take 600 msg) (codes " …"), length-take-le 600 msg))
  | inr short ↦ rw short (not_longer msg short)
]

length-hint-le : (b : Bool) → length (hint b) ≤ 183
length-hint-le true = omega arith
length-hint-le false = omega arith
