-- ===== src/Service/Recording/Answered.antt =====
-- No question is answered unrecorded (arango_sparql/service/recording.py).
use arango_sparql_py.Base.{
  ℕ, ◌+◌, ◌<◌, ◌≡◌, Bool, true, false, ◌&&◌, ◌⊎◌, Option, none, some, List, [], ◌∷◌, ◌++◌, map,
  refl, sym, ap, ◌∙◌, arith, inl, inr,
}
use arango_sparql_py.Base.Tests.{ltb, Bool-cases, Option-cases, and-eq-true}
use arango_sparql_py.Base.Eq.{nat_eq, list_eq}
use arango_sparql_py.Base.Lists.{keep, All}
use arango_sparql_py.Base.AnyOf.{AnyOf, any_of_left, any_of_right}
use arango_sparql_py.Base.Dict.{Dict, get}
use arango_sparql_py.Base.Str.{Str}
use arango_sparql_py.Service.Recording.{
  again_time, Event, World, words, vouches, recently, renewed, Outcome, key_of, within, ran_or,
  kept_question, record_kept, record_question,
}
use arango_sparql_py.Service.Recording.Log.{
  Ask, run_query, sent, asked_text, generated_it, All-keep, All-put, All-get, IsAsked, HasAsked,
  IsLogged, IsKept, IsRepeated, asked-IsRepeated,
}
use Outcome.{answered}

ran_or-run_query : (ran : Option Str) (query : Str) → ran_or ran query ≡ run_query query ran
ran_or-run_query none query = refl
ran_or-run_query (some []) query = refl
ran_or-run_query (some (c ∷ s)) query = refl

words-asked_text :
    (question : Option Str) (query : Str) → words question ++ 0 ∷ query ≡ asked_text question query
words-asked_text none query = refl
words-asked_text (some q) query = refl

vouches-generated_it : (o : Option (List Str)) (key : Str) → vouches o key ≡ generated_it o key
vouches-generated_it none key = refl
vouches-generated_it (some ks) key = refl

map-snoc : (log : List Ask) (a : Ask) → map sent (log ++ a ∷ []) ≡ map sent log ++ sent a ∷ []
map-snoc [] a = refl
map-snoc (b ∷ log) a = ap (λ x. sent b ∷ x) (map-snoc log a)

module _ (digest : Str → Str) where
  key_of-asked_text :
      (question : Option Str) (query : Str)
      → key_of digest question query ≡ digest (asked_text question query)
  unfolding key_of
  key_of-asked_text question query = ap digest (words-asked_text question query)

  All-grown :
      (log more : List Ask) (d : Dict Str ℕ)
      → All (λ e. AnyOf (IsAsked digest e) log) d
      → All (λ e. AnyOf (IsAsked digest e) (log ++ more)) d
  All-grown log more [] h = tt
  All-grown log more (e ∷ d) h =
      (any_of_left (IsAsked digest e) log more h.0, All-grown log more d h.1)

  renewed-HasAsked :
      (a : Ask) (key : Str) (log : List Ask) (o : Option (Dict Str ℕ))
      → digest (asked_text a.question a.query) ≡ key
      → HasAsked digest log o
      → HasAsked digest (log ++ a ∷ []) (renewed key a.at o)
  renewed-HasAsked a key log none same h = tt
  renewed-HasAsked a key log (some d) same h =
      let P : Str × ℕ → Type 0 = λ e. AnyOf (IsAsked digest e) (log ++ a ∷ []) in
      All-put P key a.at (keep (λ (x : Str × ℕ). ltb a.at (x.1 + again_time)) d)
        (any_of_right (IsAsked digest (key, a.at)) log (a ∷ []) (inl (same, refl)))
        (All-keep P (λ (x : Str × ℕ). ltb a.at (x.1 + again_time)) d (All-grown log (a ∷ []) d h))

  recently-IsAsked :
      (log : List Ask) (o : Option (Dict Str ℕ)) (key : Str) (now : ℕ)
      → HasAsked digest log o
      → recently o key now ≡ true
      → (t : ℕ) × AnyOf (IsAsked digest (key, t)) log × (now < t + again_time)
  recently-IsAsked log none key now a r = absurd (cc r)
  recently-IsAsked log (some d) key now a r = elim (Option-cases (get key d)) [
    | inl miss ↦ absurd (cc (rw (miss, within) at r))
    | inr (t, found) ↦
        let soon : ltb now (t + again_time) ≡ true = rw (found, within) at r in
        (t, All-get (λ x. AnyOf (IsAsked digest x) log) key t d a found, ground arith)
  ]

  kept_question-IsKept :
      (client_words : Bool) (question : Option Str) (query : Str) (w : World)
      → IsKept digest client_words question query w
          (kept_question digest client_words question query w.session)
  unfolding kept_question
  kept_question-IsKept false question query w = inl (refl, inl refl)
  kept_question-IsKept true none query w = inl (refl, inr (inl refl))
  kept_question-IsKept true (some q) query w =
      let key = key_of digest (some q) query in
      let same : vouches w.session.generated key
          ≡ generated_it w.session.generated (digest (asked_text (some q) query)) =
        vouches-generated_it w.session.generated key
        ∙ ap (generated_it w.session.generated) (key_of-asked_text (some q) query) in
      elim (Bool-cases (vouches w.session.generated key)) [
        | inl its ↦ rw its (inl (refl, inr (inr (sym same ∙ its))))
        | inr other ↦ rw other (inr (refl, refl, sym same ∙ other))
      ]

  abbrev event : Option Str → Str → Event
  event question query = record { question = question; query = query }

  module _ (question : Option Str) (query : Str) (again : Bool) (ran : Option Str) (takes : Bool)
      (now : ℕ) (w : World) (log : List Ask) (h : IsLogged digest log w) where
    abbrev key : Str
    key = key_of digest question query

    abbrev this : Ask
    this = record { question = question; query = query; ran = ran; at = now }

    record_kept-IsLogged :
        (log' : List Ask) × ((log' ≡ log) ⊎ (log' ≡ log ++ this ∷ []))
        × IsLogged digest log' (record_kept digest question query again ran takes now w).1
    unfolding record_kept
    record_kept-IsLogged = elim (Bool-cases (again && recently w.session.recorded key now)) [
      | inl repeated ↦ rw repeated (log, inl refl, h)
      | inr new ↦ elim (Bool-cases takes) [
        | inr lost ↦ rw new (rw lost (log, inl refl, h))
        | inl taken ↦ rw new (
            rw taken (
              log ++ this ∷ [],
              inr refl,
              record {
                sends =
                    ap (λ x. x ++ event question (ran_or ran query) ∷ []) h.sends
                    ∙ ap (λ x. map sent log ++ event question x ∷ []) (ran_or-run_query ran query)
                    ∙ sym (map-snoc log this);
                logged =
                    renewed-HasAsked this key log w.session.recorded
                      (sym (key_of-asked_text question query)) h.logged;
              },
            ))
      ]
    ]

    record_kept-answered :
        (record_kept digest question query again ran takes now w).0 ≡ answered
        → ((again ≡ true)
            × AnyOf (IsRepeated digest question query now) log
            × ((record_kept digest question query again ran takes now w).1.history ≡ w.history))
          ⊎ ((record_kept digest question query again ran takes now w).1.history
              ≡ w.history ++ event question (run_query query ran) ∷ [])
    unfolding record_kept
    record_kept-answered e = elim (Bool-cases (again && recently w.session.recorded key now)) [
      | inl repeated ↦
          let (is_again, recent) =
            and-eq-true again (recently w.session.recorded key now) repeated in
          let (t, asked, soon) = recently-IsAsked log w.session.recorded key now h.logged recent in
          rw repeated (
            inl (
              is_again,
              asked-IsRepeated digest question query key now t log
                  (key_of-asked_text question query) soon asked,
              refl,
            ))
      | inr new ↦ elim (Bool-cases takes) [
        | inr lost ↦ absurd (cc (rw lost at (rw new at e)))
        | inl taken ↦ rw new (
            rw taken
              (inr (ap (λ x. w.history ++ event question x ∷ []) (ran_or-run_query ran query))))
      ]
    ]

  -- Recording a question, or failing to, adds at most that question to the log, with its kept words and
  -- the time, and the session's record and the history stay true to the log.
  pub record_question-IsLogged :
      (query : Str) (question : Option Str) (again client_words : Bool) (ran : Option Str)
      (takes : Bool) (now : ℕ) (w : World) (log : List Ask)
      → IsLogged digest log w
      → (log' : List Ask) × (kept : Option Str) × IsKept digest client_words question query w kept
        × ((log' ≡ log)
            ⊎ (log' ≡ log ++ record { question = kept; query = query; ran = ran; at = now } ∷ []))
        × IsLogged digest log'
            (record_question digest query question again client_words ran takes now w).1
  unfolding record_question
  record_question-IsLogged query question again client_words ran takes now w log h =
      let kept = kept_question digest client_words question query w.session in
      let (log', grown, logged) = record_kept-IsLogged kept query again ran takes now w log h in
      (log', kept, kept_question-IsKept client_words question query w, grown, logged)

  -- A question is answered only if the history gains it, with the words that are kept and the query
  -- that ran, or if it is a re-run, and one of the same digest was recorded less than the re-run time
  -- ago.
  pub answered_is_recorded :
      (query : Str) (question : Option Str) (again client_words : Bool) (ran : Option Str)
      (takes : Bool) (now : ℕ) (w : World) (log : List Ask)
      → IsLogged digest log w
      → (record_question digest query question again client_words ran takes now w).0 ≡ answered
      → (kept : Option Str) × IsKept digest client_words question query w kept
        × (((again ≡ true)
              × AnyOf (IsRepeated digest kept query now) log
              × ((record_question digest query question again client_words ran takes now
                    w).1.history
                  ≡ w.history))
            ⊎ ((record_question digest query question again client_words ran takes now w).1.history
                ≡ w.history ++ record { question = kept; query = run_query query ran } ∷ []))
  unfolding record_question
  answered_is_recorded query question again client_words ran takes now w log h e =
      let kept = kept_question digest client_words question query w.session in
      (
        kept,
        kept_question-IsKept client_words question query w,
        record_kept-answered kept query again ran takes now w log h e,
      )
