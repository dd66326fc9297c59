-- ===== src/Service/Recording.antt =====
-- arango_sparql/service/recording.py under a control plane: the questions a session generated, and
-- the recording of each question before its answer. Times are microseconds; the digest of a key is a
-- parameter. `history` lists what the control plane was given and took: the question, if its words are
-- kept, and the query that ran.

pub mod Answered
pub mod Kept
pub mod Log
mod Tests
use arango_sparql_py.Base.{
  ℕ, zero, suc, ◌+◌, ◌≤◌, ◌≡◌, Bool, true, false, not, ◌||◌, ◌&&◌, Option, none, some, List, [],
  ◌∷◌, ◌++◌, refl,
}
use arango_sparql_py.Base.Tests.{if◌then◌else◌, ltb, leb, is_some}
use arango_sparql_py.Base.Eq.{◌==◌, nat_eq, list_eq}
use arango_sparql_py.Base.Lists.{length, contains, keep}
use arango_sparql_py.Base.Dict.{Dict, get, put}
use arango_sparql_py.Base.Str.{Str}

-- `AGAIN_SECONDS`
abbrev pub again_time : ℕ
again_time = 600000000

abbrev pub generated_kept : ℕ
generated_kept = 64

pub record Event : Type 0 where
  pub question : Option Str
  pub query : Str

-- A session's two maps, where it has them; the generated questions are the keys of a dict.
pub record Session : Type 0 where
  pub generated : Option (List Str)
  pub recorded : Option (Dict Str ℕ)

pub record World : Type 0 where
  pub session : Session
  pub history : List Event

abbrev pub words : Option Str → Str
words none = []
words (some question) = question

-- the loop that drops the oldest
unfoldable pub drop_oldest : List Str → List Str
drop_oldest [] = []
drop_oldest (k ∷ ks) =
    let rest = drop_oldest ks in if ltb generated_kept (length (k ∷ ks)) then rest else k ∷ ks

-- `generated.pop(key, None)`, `generated[key] = None`, and the loop
unfoldable pub remembered : Str → List Str → List Str
remembered key ks = drop_oldest (keep (λ k. not (k == key)) ks ++ key ∷ [])

abbrev pub vouches : Option (List Str) → Str → Bool
vouches none key = false
vouches (some ks) key = contains key ks

abbrev pub within : ℕ → Option ℕ → Bool
within now none = false
within now (some at) = ltb now (at + again_time)

abbrev pub recently : Option (Dict Str ℕ) → Str → ℕ → Bool
recently none key now = false
recently (some recent) key now = within now (get key recent)

abbrev pub renewed : Str → ℕ → Option (Dict Str ℕ) → Option (Dict Str ℕ)
renewed key now none = none
renewed key now (some recent) =
    some (put key now (keep (λ (e : Str × ℕ). ltb now (e.1 + again_time)) recent))

pub data Outcome : Type 0 where
  answered not_recorded : Outcome

abbrev pub ran_or : Option Str → Str → Str
ran_or none query = query
ran_or (some []) query = query
ran_or (some (c ∷ s)) query = c ∷ s

module _ (digest : Str → Str) where
  -- `_key`
  unfoldable pub key_of : Option Str → Str → Str
  key_of question query = digest (words question ++ 0 ∷ query)

  abbrev pub remember_in : Str → Option (List Str) → Option (List Str)
  remember_in key none = none
  remember_in key (some ks) = some (remembered key ks)

  unfoldable pub remember_generated : Str → Str → Session → Session
  remember_generated question query s = record s {
    generated = remember_in (key_of (some question) query) s.generated;
  }

  -- the words that are kept: of the caller's, only those that this session generated the query from
  unfoldable pub kept_question : Bool → Option Str → Str → Session → Option Str
  kept_question client_words question query s =
      if client_words && is_some question && not (vouches s.generated (key_of question query))
      then none
      else question

  -- with the words that are kept; `takes` is whether the control plane records
  unfoldable pub record_kept :
      Option Str → Str → Bool → Option Str → Bool → ℕ → World → Outcome × World
  record_kept question query again ran takes now w =
      let key = key_of question query in
      if again && recently w.session.recorded key now
      then (answered, w)
      else if takes
      then (
        answered,
        record {
          session = record w.session { recorded = renewed key now w.session.recorded };
          history = w.history ++ record { question = question; query = ran_or ran query } ∷ [];
        },
      )
      else (not_recorded, w)

  unfoldable pub record_question :
      Str → Option Str → Bool → Bool → Option Str → Bool → ℕ → World → Outcome × World
  record_question query question again client_words ran takes now w =
      record_kept (kept_question client_words question query w.session) query again ran takes now w
