-- ===== src/Service/Warm/Requests.antt =====
-- Which requests for a re-analysis are answered (arango_sparql/service/schema_warm.py).
use arango_sparql_py.Base.{
  ◌≡◌, Bool, true, false, Option, none, some, List, [], ◌∷◌, ◌++◌, refl, sym, subst, arith, inl,
  inr,
}
use arango_sparql_py.Base.AnyOf.{AnyOf, any_of_right}
use arango_sparql_py.Base.Tests.{Bool-cases}
use arango_sparql_py.Base.Eq.{◌==◌, nat_eq, list_eq, eq_iff, eq_refl}
use arango_sparql_py.Base.Lists.{contains}
use arango_sparql_py.Base.Dict.{get, get-put_self, get-remove}
use arango_sparql_py.Base.Str.{Str}
use arango_sparql_py.Service.Warm.{
  Mode, Phase, State, Step, Reachable, is_warming, add, discard, request_rebuild, recorded,
  check_rebuild, clear_marks, start, schedule_named, schedule_warm, take_error, record_error,
  after_check,
}
use arango_sparql_py.Service.Warm.Once.{count, count-middle, count-append, one_warm}
use Mode.{rebuild, revalidate}
use Phase.{rebuilding, finishing}

contains-add : (k : Str) (names : List Str) → contains k (add k names) ≡ true
unfolding add
contains-add k names = elim (Bool-cases (contains k names)) [
  | inl old ↦ rw old old
  | inr new ↦ rw new (ground (arith, eq_refl k))
]

contains-discard : (k : Str) (names : List Str) → contains k (discard k names) ≡ false
unfolding discard
contains-discard k [] = refl
contains-discard k (x ∷ names) = ground (arith, contains-discard k names)

contains-discard_other :
    (k j : Str) (names : List Str)
    → (j == k) ≡ false
    → contains k names ≡ true
    → contains k (discard j names) ≡ true
unfolding discard
contains-discard_other k j [] differs m = m
contains-discard_other k j (x ∷ names) differs m = elim (Bool-cases (x == j)) [
  | inl gone ↦
      rw gone
        (contains-discard_other k j names differs (ground (arith, m, differs, gone, eq_iff x j)))
  | inr stays ↦ rw stays (elim (Bool-cases (x == k)) [
    | inl here ↦ rw here refl
    | inr there ↦ rw there (contains-discard_other k j names differs (rw there at m))
  ])
]

contains-add_other :
    (k j : Str) (names : List Str) → contains k names ≡ true → contains k (add j names) ≡ true
unfolding add
contains-add_other k j names m = ground (arith, m)

-- a step that is not one of the database's own warm
abbrev pub IsOther : Str → {s t : State} → Step s t → Type 0
IsOther k (Step.schedule_step name revalidating) = Unit
IsOther k (Step.request_step db_name) = Unit
IsOther k (Step.error_step db_name) = Unit
IsOther k (Step.checked_step before after db_name mode e) = (db_name == k) ≡ false
IsOther k (Step.rebuilt_step before after db_name e) = (db_name == k) ≡ false
IsOther k (Step.failed_step before after db_name phase exc e busy) = (db_name == k) ≡ false
IsOther k (Step.finished_step before after db_name e) = (db_name == k) ≡ false

-- any number of such steps
pub data Meanwhile (k : Str) (s : State) : State → Type 0 where
  at_once : Meanwhile k s s
  then_other :
      {t u : State} → Meanwhile k s t → (step : Step t u) → IsOther k step → Meanwhile k s u

-- the step of the database's own warm whose first analysis has returned
abbrev pub IsCheck : Str → {s t : State} → Step s t → Type 0
IsCheck k (Step.checked_step before after db_name mode e) = db_name ≡ k
IsCheck k _ = ⊥

recorded-keeps :
    (k j : Str) (o : Option Mode) (s : State)
    → contains k s.rebuild_after ≡ true
    → contains k (recorded j o s).rebuild_after ≡ true
recorded-keeps k j none s m = m
recorded-keeps k j (some rebuild) s m = m
recorded-keeps k j (some revalidate) s m = contains-add_other k j s.rebuild_after m

schedule-keeps :
    (k j : Str) (revalidating : Bool) (s : State)
    → contains k s.rebuild_after ≡ true
    → contains k (schedule_named j revalidating s).1.rebuild_after ≡ true
unfolding start
schedule-keeps k j revalidating s m = ground (arith, m)

other-keeps :
    (k : Str) {s t : State} (step : Step s t)
    → IsOther k step
    → contains k s.rebuild_after ≡ true
    → contains k t.rebuild_after ≡ true
unfolding schedule_warm request_rebuild take_error check_rebuild record_error clear_marks
other-keeps k (Step.schedule_step none revalidating) o m = m
other-keeps k {s} (Step.schedule_step (some j) revalidating) o m =
    schedule-keeps k j revalidating s m
other-keeps k {s} (Step.request_step j) o m = recorded-keeps k j (get j s.inflight) s m
other-keeps k (Step.error_step j) o m = m
other-keeps k {s} (Step.checked_step before after j mode e) o m =
    contains-discard_other k j s.rebuild_after o m
other-keeps k (Step.rebuilt_step before after j e) o m = m
other-keeps k (Step.failed_step before after j phase exc e busy) o m = m
other-keeps k {s} (Step.finished_step before after j e) o m =
    contains-discard_other k j s.rebuild_after o m

Meanwhile-keeps :
    (k : Str) (s : State) {t : State}
    → Meanwhile k s t
    → contains k s.rebuild_after ≡ true
    → contains k t.rebuild_after ≡ true
Meanwhile-keeps k s Meanwhile.at_once m = m
Meanwhile-keeps k s (Meanwhile.then_other run step other) m =
    other-keeps k step other (Meanwhile-keeps k s run m)

-- The thread re-analyzes, the database is marked so, and no request is on record.
abbrev pub IsRebuilding : Str → State → Type 0
IsRebuilding k t =
    AnyOf (λ (thread : Str × Phase). thread ≡ (k, rebuilding)) t.threads
    × (get k t.inflight ≡ some rebuild)
    × (contains k t.rebuild_after ≡ false)

check-IsRebuilding :
    (k : Str) {s t : State} (step : Step s t)
    → IsCheck k step
    → contains k s.rebuild_after ≡ true
    → IsRebuilding k t
unfolding check_rebuild
check-IsRebuilding k {s} (Step.checked_step before after db_name mode e) same m =
    let n : contains db_name s.rebuild_after ≡ true =
      subst (λ x. contains x s.rebuild_after ≡ true) (sym same) m in
    subst
      (λ x. IsRebuilding x (record (check_rebuild db_name s).1 {
        threads = before ++ (db_name, after_check (check_rebuild db_name s).0) ∷ after;
      }))
      same
      (rw n (
        any_of_right (λ (thread : Str × Phase). thread ≡ (db_name, rebuilding)) before
            ((db_name, rebuilding) ∷ after) (inl refl),
        get-put_self db_name rebuild s.inflight,
        contains-discard db_name s.rebuild_after,
      ))
check-IsRebuilding k _ same m = absurd same

-- A re-analysis that is asked for while a revalidation is in flight is answered, whatever the requests
-- and the warms of other databases do meanwhile: if the next step of the database's own warm is its
-- check, its first analysis having returned, its thread goes on to the re-analysis, the database is
-- marked as being re-analyzed, and the request is taken off.
pub rebuild_is_answered :
    (db_name : Str) (s t u : State)
    → get db_name s.inflight ≡ some revalidate
    → Meanwhile db_name (request_rebuild db_name s) t
    → (step : Step t u) → IsCheck db_name step
    → IsRebuilding db_name u
unfolding request_rebuild
rebuild_is_answered db_name s t u h run step check = check-IsRebuilding db_name step check (
    Meanwhile-keeps db_name (request_rebuild db_name s) run
      (rw (h, recorded) (contains-add db_name s.rebuild_after)))

-- A re-analysis that is asked for between a warm's check and its end is dropped: once the warm's
-- thread has ended, no request is on record, no thread warms the database and none is reported.
pub late_request_is_dropped :
    (before after : List (Str × Phase)) (db_name : Str) (s : State)
    → Reachable s
    → s.threads ≡ before ++ (db_name, finishing) ∷ after
    → let t = clear_marks db_name (request_rebuild db_name s) in
      (contains db_name t.rebuild_after ≡ false)
      × (is_warming db_name t ≡ false)
      × (count db_name (before ++ after) ≡ 0)
unfolding clear_marks is_warming
late_request_is_dropped before after db_name s r e = (
  contains-discard db_name (request_rebuild db_name s).rebuild_after,
  ground (arith, get-remove db_name db_name (request_rebuild db_name s).inflight, eq_refl db_name),
  ground (
    arith,
    rw e at (one_warm s db_name r).0,
    count-middle db_name db_name finishing before after,
    count-append db_name before after,
    eq_refl db_name,
  ),
)
