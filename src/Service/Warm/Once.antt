-- ===== src/Service/Warm/Once.antt =====
-- At most one warm runs for a database, and `is_warming` says whether one does
-- (arango_sparql/service/schema_warm.py).
use arango_sparql_py.Base.{
  ℕ, ◌+◌, ◌≤◌, ◌≡◌, Bool, true, false, ◌↔◌, Option, none, some, List, [], ◌∷◌, ◌++◌, refl, ap,
  arith,
}
use arango_sparql_py.Base.Tests.{if◌then◌else◌}
use arango_sparql_py.Base.Eq.{◌==◌, nat_eq, list_eq, eq_iff, eq_refl}
use arango_sparql_py.Base.Lists.{contains}
use arango_sparql_py.Base.Dict.{get, put, has, get-put, get-remove}
use arango_sparql_py.Base.Str.{Str}
use arango_sparql_py.Service.Warm.{
  Mode, Phase, State, Step, Reachable, is_warming, take_error, request_rebuild, recorded, start,
  mode_of, schedule_named, schedule_warm, check_rebuild, record_error, clear_marks, after_check,
}
use Mode.{rebuild, revalidate}
use Phase.{working, rebuilding, finishing}

-- how many threads warm the database
abbrev pub count : Str → List (Str × Phase) → ℕ
count k [] = 0
count k ((db_name, phase) ∷ ts) = (if db_name == k then 1 else 0) + count k ts

abbrev flag : Bool → ℕ
flag true = 1
flag false = 0

pub count-append :
    (k : Str) (xs ys : List (Str × Phase)) → count k (xs ++ ys) ≡ count k xs + count k ys
count-append k [] ys = omega arith
count-append k ((db_name, phase) ∷ xs) ys = omega (arith, count-append k xs ys)

pub count-middle :
    (k db_name : Str) (phase : Phase) (xs ys : List (Str × Phase))
    → count k (xs ++ (db_name, phase) ∷ ys)
      ≡ count k xs + ((if db_name == k then 1 else 0) + count k ys)
count-middle k db_name phase xs ys = count-append k xs ((db_name, phase) ∷ ys)

abbrev IsMarked : State → Type 0
IsMarked s = (k : Str) → count k s.threads ≡ flag (has k s.inflight)

schedule-IsMarked :
    (db_name : Str) (revalidating : Bool) (s : State)
    → IsMarked s
    → IsMarked (schedule_named db_name revalidating s).1
unfolding start
schedule-IsMarked db_name revalidating s h k =
    ground (arith, h k, get-put db_name k (mode_of revalidating) s.inflight, eq_iff db_name k)

-- A thread of the database stands in the list, so the database is marked.
marked :
    (before after : List (Str × Phase)) (db_name : Str) (phase : Phase) (s : State)
    → IsMarked s
    → s.threads ≡ before ++ (db_name, phase) ∷ after
    → has db_name s.inflight ≡ true
marked before after db_name phase s h e =
    ground
      (arith, rw e at (h db_name), count-middle db_name db_name phase before after, eq_refl db_name)

same_count :
    (before after : List (Str × Phase)) (db_name : Str) (old new : Phase) (s : State) (k : Str)
    → s.threads ≡ before ++ (db_name, old) ∷ after
    → count k (before ++ (db_name, new) ∷ after) ≡ count k s.threads
same_count before after db_name old new s k e = rw e (
    omega (arith, count-middle k db_name old before after, count-middle k db_name new before after))

again_has :
    (again : Bool) (k db_name : Str) (s : State)
    → has db_name s.inflight ≡ true
    → has k (if again then put db_name rebuild s.inflight else s.inflight) ≡ has k s.inflight
again_has true k db_name s m =
    ground (arith, get-put db_name k rebuild s.inflight, eq_iff db_name k, m)
again_has false k db_name s m = refl

request-IsMarked :
    (db_name : Str) (o : Option Mode) (s : State) → IsMarked s → IsMarked (recorded db_name o s)
request-IsMarked db_name none s h = h
request-IsMarked db_name (some rebuild) s h = h
request-IsMarked db_name (some revalidate) s h = h

remaining : (s : State) (k : Str) → flag (has k s.inflight) ≤ 1
remaining s k = ground arith

Step-IsMarked : {s t : State} → Step s t → IsMarked s → IsMarked t
unfolding schedule_warm request_rebuild take_error check_rebuild record_error clear_marks
Step-IsMarked {s} (Step.schedule_step none revalidating) h = h
Step-IsMarked {s} (Step.schedule_step (some db_name) revalidating) h =
    schedule-IsMarked db_name revalidating s h
Step-IsMarked {s} (Step.request_step db_name) h =
    request-IsMarked db_name (get db_name s.inflight) s h
Step-IsMarked {s} (Step.error_step db_name) h = h
Step-IsMarked {s} (Step.checked_step before after db_name mode e) h = λ k. omega (
  arith,
  h k,
  same_count before after db_name (working mode) (after_check (contains db_name s.rebuild_after)) s
      k e,
  ap flag (
      again_has (contains db_name s.rebuild_after) k db_name s
        (marked before after db_name (working mode) s h e)),
)
Step-IsMarked {s} (Step.rebuilt_step before after db_name e) h =
    λ k. omega (arith, h k, same_count before after db_name rebuilding finishing s k e)
Step-IsMarked {s} (Step.failed_step before after db_name phase exc e busy) h =
    λ k. omega (arith, h k, same_count before after db_name phase finishing s k e)
Step-IsMarked {s} (Step.finished_step before after db_name e) h = λ k. ground (
  arith,
  rw e at (h k),
  count-middle k db_name finishing before after,
  count-append k before after,
  get-remove db_name k s.inflight,
  remaining s k,
)

Reachable-IsMarked : {s : State} → Reachable s → IsMarked s
unfolding get
Reachable-IsMarked Reachable.at_start = λ k. refl
Reachable-IsMarked (Reachable.then_step r step) = Step-IsMarked step (Reachable-IsMarked r)

-- Whatever the requests and the threads do, in whatever order, no two warms run for one database,
-- and `is_warming` holds of a database exactly when a thread warms it.
pub one_warm :
    (s : State) (db_name : Str)
    → Reachable s
    → (count db_name s.threads ≤ 1)
      × ((is_warming db_name s ≡ true) ↔ (count db_name s.threads ≡ 1))
unfolding is_warming
one_warm s db_name r =
    let h = Reachable-IsMarked r db_name in (ground (arith, h), ground (arith, h))
