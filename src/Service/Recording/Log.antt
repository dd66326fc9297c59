-- ===== src/Service/Recording/Log.antt =====
-- What the control plane's history stands for (arango_sparql/service/recording.py): the questions that
-- were recorded, each with its time, which the source does not send along.
use arango_sparql_py.Base.{
  ℕ, ◌+◌, ◌<◌, ◌≡◌, sym, ◌∙◌, Bool, true, false, Option, none, some, List, [], ◌∷◌, ◌++◌, map,
  arith, inl, inr, subst, ◌⊎◌,
}
use arango_sparql_py.Base.Tests.{Bool-cases}
use arango_sparql_py.Base.Eq.{◌==◌, nat_eq, list_eq, eq_iff}
use arango_sparql_py.Base.Lists.{contains, keep, All}
use arango_sparql_py.Base.AnyOf.{AnyOf}
use arango_sparql_py.Base.Dict.{Dict, get, put}
use arango_sparql_py.Base.Str.{Str}
use arango_sparql_py.Service.Recording.{again_time, Event, World}

-- A recorded question: its words, the query as it was asked, the one that ran if it is another, and
-- when it was recorded.
pub record Ask : Type 0 where
  pub question : Option Str
  pub query : Str
  pub ran : Option Str
  pub at : ℕ

-- the query that ran: another one than was asked only if that is not empty
abbrev pub run_query : Str → Option Str → Str
run_query query none = query
run_query query (some []) = query
run_query query (some (c ∷ s)) = c ∷ s

abbrev pub sent : Ask → Event
sent a = record { question = a.question; query = run_query a.query a.ran }

-- what the digest of a question is taken of
abbrev pub asked_text : Option Str → Str → Str
asked_text none query = 0 ∷ query
asked_text (some question) query = question ++ 0 ∷ query

-- whether the session generated the query from the question
abbrev pub generated_it : Option (List Str) → Str → Bool
generated_it none key = false
generated_it (some ks) key = contains key ks

module _ (P : Str × ℕ → Type 0) where
  pub All-keep : (p : Str × ℕ → Bool) (d : Dict Str ℕ) → All P d → All P (keep p d)
  All-keep p [] h = tt
  All-keep p (e ∷ d) h = elim (Bool-cases (p e)) [
    | inl stays ↦ rw stays (h.0, All-keep p d h.1)
    | inr goes ↦ rw goes (All-keep p d h.1)
  ]

  pub All-put : (k : Str) (t : ℕ) (d : Dict Str ℕ) → P (k, t) → All P d → All P (put k t d)
  unfolding put
  All-put k t [] x h = (x, tt)
  All-put k t ((j, u) ∷ d) x h = elim (Bool-cases (j == k)) [
    | inl same ↦ rw same (subst (λ y. P (y, t)) (same_key j k same) x, h.1)
    | inr differs ↦ rw differs (h.0, All-put k t d x h.1)
  ]
    where
      same_key : (j k : Str) → (j == k) ≡ true → k ≡ j
      same_key j k same = ground (arith, eq_iff j k)

  pub All-get : (k : Str) (t : ℕ) (d : Dict Str ℕ) → All P d → get k d ≡ some t → P (k, t)
  unfolding get
  All-get k t [] h g = absurd (cc g)
  All-get k t ((j, u) ∷ d) h g = elim (Bool-cases (j == k)) [
    | inl same ↦ subst (λ y. P y) (pair j k u t same (rw same at g)) h.0
    | inr differs ↦ All-get k t d h.1 (rw differs at g)
  ]
    where
      pair :
          (j k : Str) (u t : ℕ)
          → (j == k) ≡ true
          → ◌≡◌ {A = Option ℕ} (some u) (some t)
          → ◌≡◌ {A = Str × ℕ} (j, u) (k, t)
      pair j k u t same g = cc ((eq_iff j k).0 same, g)

module _ (digest : Str → Str) where
  -- a question that was recorded under the key at the time
  abbrev pub IsAsked : Str × ℕ → Ask → Type 0
  IsAsked e a = (digest (asked_text a.question a.query) ≡ e.0) × (a.at ≡ e.1)

  abbrev pub HasAsked : List Ask → Option (Dict Str ℕ) → Type 0
  HasAsked log none = Unit
  HasAsked log (some recent) = All (λ e. AnyOf (IsAsked e) log) recent

  -- The history is what was sent of the questions in the log, and each question that the session takes
  -- for recorded is there, at the time that the session has for it.
  pub record IsLogged (log : List Ask) (w : World) : Type 0 where
    pub sends : w.history ≡ map sent log
    pub logged : HasAsked log w.session.recorded

  -- The words that are kept of a question: all but the caller's for a query that the session did not
  -- generate from them.
  abbrev pub IsKept : Bool → Option Str → Str → World → Option Str → Type 0
  IsKept client_words question query w kept =
      ((kept ≡ question)
        × ((client_words ≡ false)
            ⊎ ((question ≡ none)
                ⊎ (generated_it w.session.generated (digest (asked_text question query)) ≡ true))))
      ⊎ ((kept ≡ none)
          × (client_words ≡ true)
          × (generated_it w.session.generated (digest (asked_text question query)) ≡ false))

  -- a question recorded under the same digest less than the re-run time ago
  abbrev pub IsRepeated : Option Str → Str → ℕ → Ask → Type 0
  IsRepeated question query now a =
      (digest (asked_text a.question a.query) ≡ digest (asked_text question query))
      × (now < a.at + again_time)

  pub asked-IsRepeated :
      (question : Option Str) (query key : Str) (now t : ℕ) (log : List Ask)
      → key ≡ digest (asked_text question query)
      → now < t + again_time
      → AnyOf (IsAsked (key, t)) log
      → AnyOf (IsRepeated question query now) log
  asked-IsRepeated question query key now t [] same soon h = h
  asked-IsRepeated question query key now t (a ∷ log) same soon (inl (e, f)) =
      inl (e ∙ same, subst (λ x. now < x + again_time) (sym f) soon)
  asked-IsRepeated question query key now t (a ∷ log) same soon (inr h) =
      inr (asked-IsRepeated question query key now t log same soon h)
