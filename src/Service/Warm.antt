-- ===== src/Service/Warm.antt =====
-- arango_sparql/service/schema_warm.py: background schema warming. Each function that takes the lock
-- is one step; a warm's thread is in one of the phases between its locked regions. A thread starts in
-- the step that marks its database, and the start does not fail.
pub mod Once
pub mod Requests
mod Tests
use arango_sparql_py.Base.{
  ℕ, zero, suc, ◌+◌, ◌≡◌, Bool, true, false, not, ◌||◌, Option, none, some, List, [], ◌∷◌, ◌++◌,
  refl,
}
use arango_sparql_py.Base.Tests.{if◌then◌else◌, is_some}
use arango_sparql_py.Base.Eq.{◌==◌, nat_eq, list_eq}
use arango_sparql_py.Base.Lists.{contains, keep, is_nil}
use arango_sparql_py.Base.Dict.{Dict, get, put, remove, has}
use arango_sparql_py.Base.Str.{Str}

pub data Mode : Type 0 where
  rebuild revalidate : Mode

-- at its first analysis, at the analysis that was asked for meanwhile, or done with both
pub data Phase : Type 0 where
  working : Mode → Phase
  rebuilding finishing : Phase

-- An exception is a number.
pub record State : Type 0 where
  pub inflight : Dict Str Mode
  pub rebuild_after : List Str
  pub errors : Dict Str ℕ
  pub threads : List (Str × Phase)

abbrev pub idle : State
idle = record { inflight = []; rebuild_after = []; errors = []; threads = [] }

unfoldable pub is_warming : Str → State → Bool
is_warming db_name s = has db_name s.inflight

unfoldable pub take_error : Str → State → Option ℕ × State
take_error db_name s = (get db_name s.errors, record s { errors = remove db_name s.errors })

-- `set.add` and `set.discard`
unfoldable pub add : Str → List Str → List Str
add db_name names = if contains db_name names then names else db_name ∷ names

unfoldable pub discard : Str → List Str → List Str
discard db_name = keep (λ x. not (x == db_name))

abbrev pub recorded : Str → Option Mode → State → State
recorded db_name (some revalidate) s = record s { rebuild_after = add db_name s.rebuild_after }
recorded db_name _ s = s

unfoldable pub request_rebuild : Str → State → State
request_rebuild db_name s = recorded db_name (get db_name s.inflight) s

abbrev pub mode_of : Bool → Mode
mode_of true = revalidate
mode_of false = rebuild

-- the new warm, with its thread started
unfoldable pub start : Str → Mode → State → State
start db_name mode s = record {
  inflight = put db_name mode s.inflight;
  rebuild_after = s.rebuild_after;
  errors = remove db_name s.errors;
  threads = (db_name, working mode) ∷ s.threads;
}

abbrev pub schedule_named : Str → Bool → State → Bool × State
schedule_named db_name revalidating s =
    if is_nil db_name || has db_name s.inflight
    then (false, s)
    else (true, start db_name (mode_of revalidating) s)

-- The database's name is none where reading it raises.
unfoldable pub schedule_warm : Option Str → Bool → State → Bool × State
schedule_warm none revalidating s = (false, s)
schedule_warm (some db_name) revalidating s = schedule_named db_name revalidating s

-- The locked region after a successful first analysis: whether another was asked for meanwhile.
unfoldable pub check_rebuild : Str → State → Bool × State
check_rebuild db_name s =
    let again = contains db_name s.rebuild_after in
    (
      again,
      record s {
        rebuild_after = discard db_name s.rebuild_after;
        inflight = if again then put db_name rebuild s.inflight else s.inflight;
      },
    )

-- the locked region of the `except`
unfoldable pub record_error : Str → ℕ → State → State
record_error db_name exc s = record s { errors = put db_name exc s.errors }

-- the locked region of the `finally`
unfoldable pub clear_marks : Str → State → State
clear_marks db_name s = record s {
  inflight = remove db_name s.inflight;
  rebuild_after = discard db_name s.rebuild_after;
}

abbrev pub after_check : Bool → Phase
after_check true = rebuilding
after_check false = finishing

abbrev pub is_busy : Phase → Bool
is_busy finishing = false
is_busy _ = true

-- One step of any request or any thread, in any order.
pub data Step (s : State) : State → Type 0 where
  schedule_step :
      (name : Option Str) (revalidating : Bool) → Step s (schedule_warm name revalidating s).1
  request_step : (db_name : Str) → Step s (request_rebuild db_name s)
  error_step : (db_name : Str) → Step s (take_error db_name s).1
  -- the first analysis returned
  checked_step :
      (before after : List (Str × Phase)) (db_name : Str) (mode : Mode)
      → s.threads ≡ before ++ (db_name, working mode) ∷ after
      → Step s (record (check_rebuild db_name s).1 {
        threads = before ++ (db_name, after_check (check_rebuild db_name s).0) ∷ after;
      })
  -- the second analysis returned
  rebuilt_step :
      (before after : List (Str × Phase)) (db_name : Str)
      → s.threads ≡ before ++ (db_name, rebuilding) ∷ after
      → Step s (record s { threads = before ++ (db_name, finishing) ∷ after })
  -- an analysis raised
  failed_step :
      (before after : List (Str × Phase)) (db_name : Str) (phase : Phase) (exc : ℕ)
      → s.threads ≡ before ++ (db_name, phase) ∷ after
      → is_busy phase ≡ true
      → Step s
          (record (record_error db_name exc s) { threads = before ++ (db_name, finishing) ∷ after })
  -- the thread ends
  finished_step :
      (before after : List (Str × Phase)) (db_name : Str)
      → s.threads ≡ before ++ (db_name, finishing) ∷ after
      → Step s (record (clear_marks db_name s) { threads = before ++ after })

pub data Reachable : State → Type 0 where
  at_start : Reachable idle
  then_step : {s t : State} → Reachable s → Step s t → Reachable t
