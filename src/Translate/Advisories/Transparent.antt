-- ===== src/Translate/Advisories/Transparent.antt =====
-- What arango_sparql/translate/advisories.py reports does not depend on what is cached.
use arango_sparql_py.Base.{
  ◌≡◌, true, false, some, List, [], ◌∷◌, ◌++◌, refl, arith, inl, inr, sym, ap, ◌∙◌, append_assoc,
  append-nil,
}
use arango_sparql_py.Base.Tests.{Bool-cases}
use arango_sparql_py.Base.Eq.{◌==◌, nat_eq, list_eq, pair_eq, eq_iff}
use arango_sparql_py.Base.Lists.{contains}
use arango_sparql_py.Base.Dict.{get, get-put}
use arango_sparql_py.Base.Str.{Str}
use arango_sparql_py.Translate.Advisories.{
  Advisory, Key, Reports, Log, key_of, record_advisory, warn_schema, warn_all, remembered, replay,
  top, below, push, capture, Script, mark, run, collecting_warnings,
}
use Script.{done, warn, resolve}

-- the advisories of a script, whatever is cached
unfoldable pub emitted : Script → List Advisory
emitted done = []
emitted (warn e s) = e ∷ emitted s
emitted (resolve k body s) = emitted body ++ emitted s

-- Every resolution in it is the one of its key.
abbrev pub IsOf : (Key → Script) → Script → Type 0
IsOf body done = Unit
IsOf body (warn e s) = IsOf body s
IsOf body (resolve k b s) = (b ≡ body k) × IsOf body b × IsOf body s

-- What is cached remembers the advisories of its resolution.
abbrev pub IsConsistent : (Key → Script) → Log → Type 0
IsConsistent body l =
    (k : Key) → contains k l.cached ≡ true → get k l.entry_warnings ≡ some (emitted (body k))

warn_all-append :
    (es fs : List Advisory) (r : Reports) → warn_all (es ++ fs) r ≡ warn_all fs (warn_all es r)
unfolding warn_all
warn_all-append [] fs r = refl
warn_all-append (e ∷ es) fs r = warn_all-append es fs (warn_schema e r)

warn_schema-push :
    (e : Advisory) (c : List Advisory) (r : Reports)
    → warn_schema e (push c r) ≡ push (c ++ e ∷ []) (warn_schema e r)
unfolding warn_schema record_advisory
warn_schema-push e c r = elim (Bool-cases (contains (key_of e) r.warned_keys)) [
  | inl old ↦ rw old refl
  | inr new ↦ rw new refl
]

warn_all-push :
    (es c : List Advisory) (r : Reports) → warn_all es (push c r) ≡ push (c ++ es) (warn_all es r)
unfolding warn_all
warn_all-push [] c r = rw (append-nil c) refl
warn_all-push (e ∷ es) c r = rw (warn_schema-push e c r) (
    warn_all-push es (c ++ e ∷ []) (warn_schema e r)
    ∙ ap (λ x. push x (warn_all es (warn_schema e r))) (append_assoc c (e ∷ []) es))

module _ (body : Key → Script) where
  -- what a script does to a log
  record Reported (s : Script) (l l' : Log) : Type 0 where
    reports : l'.reports ≡ warn_all (emitted s) l.reports
    consistent : IsConsistent body l'

  module _ (k : Key) (b : Script) (own : b ≡ body k) (l : Log)
      (h : Reported b
        (record l { reports = push [] l.reports })
        (run b (record l { reports = push [] l.reports }))) where
    abbrev inner : Log
    inner = run b (record l { reports = push [] l.reports })

    pushed : inner.reports ≡ push (emitted b) (warn_all (emitted b) l.reports)
    pushed = h.reports ∙ warn_all-push (emitted b) [] l.reports

    captured-IsConsistent : IsConsistent body (mark k (capture k (run b) l))
    unfolding capture
    captured-IsConsistent j c = elim (Bool-cases (k == j)) [
      | inl same ↦ rw (get-put k j (top inner.reports.captures) inner.entry_warnings) (
          rw (same, ap (λ r. top r.captures) pushed)
            (ap (λ x. some (emitted x)) (own ∙ ap body ((eq_iff k j).0 same))))
      | inr differs ↦
          rw (get-put k j (top inner.reports.captures) inner.entry_warnings)
            (rw differs (h.consistent j (ground arith)))
    ]

    captured : Reported b l (mark k (capture k (run b) l))
    captured = record {
      reports =
          unfold capture in
          ap {A = Reports} {B = Reports} (λ r. record r { captures = below r.captures }) pushed;
      consistent = captured-IsConsistent;
    }

  replayed :
      (k : Key) (b : Script) (l : Log)
      → b ≡ body k
      → IsConsistent body l
      → contains k l.cached ≡ true
      → Reported b l (replay k l)
  unfolding replay
  replayed k b l own c hit = record {
    reports = rw (c k hit, remembered) (ap (λ x. warn_all (emitted x) l.reports) (sym own));
    consistent = c;
  }

  -- one after the other
  then-Reported :
      (k : Key) (b s : Script) (l m n : Log)
      → Reported b l m
      → Reported s m n
      → Reported (resolve k b s) l n
  unfolding emitted
  then-Reported k b s l m n h g = record {
    reports =
        g.reports
        ∙ ap (λ r. warn_all (emitted s) r) h.reports
        ∙ sym (warn_all-append (emitted b) (emitted s) l.reports);
    consistent = g.consistent;
  }

  Reported-done : (l : Log) → IsConsistent body l → Reported done l l
  unfolding warn_all emitted
  Reported-done l c = record { reports = refl; consistent = c }

  Reported-warn :
      (e : Advisory) (s : Script) (l m : Log)
      → Reported s (record l { reports = warn_schema e l.reports }) m
      → Reported (warn e s) l m
  unfolding warn_all emitted
  Reported-warn e s l m h = record { reports = h.reports; consistent = h.consistent }

  run-Reported : (s : Script) (l : Log) → IsOf body s → IsConsistent body l → Reported s l (run s l)
  unfolding run emitted
  run-Reported done l h c = Reported-done l c
  run-Reported (warn e s) l h c =
      Reported-warn e s l (run s (record l { reports = warn_schema e l.reports }))
        (run-Reported s (record l { reports = warn_schema e l.reports }) h c)
  run-Reported (resolve k b s) l (own, hb, hs) c = elim (Bool-cases (contains k l.cached)) [
    | inl hit ↦
        let first = replayed k b l own c hit in
        rw hit (
          then-Reported k b s l (replay k l) (run s (replay k l)) first
            (run-Reported s (replay k l) hs first.consistent))
    | inr miss ↦
        let m = mark k (capture k (run b) l) in
        let first =
          captured k b own l (run-Reported b (record l { reports = push [] l.reports }) hb c) in
        rw miss (then-Reported k b s l m (run s m) first (run-Reported s m hs first.consistent))
  ]

-- the first of each key, of those whose key was not seen
unfoldable pub firsts : List (Str × Str) → List Advisory → List Advisory
firsts seen [] = []
firsts seen (e ∷ es) = elim (contains (key_of e) seen) [
  | true ↦ firsts seen es
  | false ↦ e ∷ firsts (key_of e ∷ seen) es
]

warnings-warn_schema :
    (e : Advisory) (es : List Advisory) (r : Reports)
    → (warn_schema e r).warnings ++ firsts (warn_schema e r).warned_keys es
      ≡ r.warnings ++ firsts r.warned_keys (e ∷ es)
unfolding warn_schema record_advisory firsts
warnings-warn_schema e es r = elim (Bool-cases (contains (key_of e) r.warned_keys)) [
  | inl old ↦ rw (old, firsts) refl
  | inr new ↦
      rw (new, firsts) (append_assoc r.warnings (e ∷ []) (firsts (key_of e ∷ r.warned_keys) es))
]

warnings-warn_all :
    (es : List Advisory) (r : Reports)
    → (warn_all es r).warnings ≡ r.warnings ++ firsts r.warned_keys es
unfolding warn_all firsts
warnings-warn_all [] r = rw (append-nil r.warnings) refl
warnings-warn_all (e ∷ es) r = warnings-warn_all es (warn_schema e r) ∙ warnings-warn_schema e es r

module _ (body : Key → Script) (s : Script) (l : Log) (h : IsOf body s)
    (c : IsConsistent body l) where
  -- A translation collects exactly the advisories that its resolutions raise, the first of each code and
  -- IRI, whatever was cached and reported before.
  pub collecting_warnings-Complete :
      ((collecting_warnings s l).0 ≡ firsts [] (emitted s))
      × IsConsistent body (collecting_warnings s l).1
  unfolding collecting_warnings
  collecting_warnings-Complete =
      let r : Reports = record l.reports { warnings = []; warned_keys = [] } in
      let reported = run-Reported body s (record l { reports = r }) h c in
      (
        ap {A = Reports} {B = List Advisory} (λ x. x.warnings) reported.reports
            ∙ warnings-warn_all (emitted s) r,
        reported.consistent,
      )
