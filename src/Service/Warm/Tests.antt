-- ===== src/Service/Warm/Tests.antt =====
-- The theorems on background warming (arango_sparql/service/schema_warm.py) at short runs.
use arango_sparql_py.Base.{◌≤◌, ◌≡◌, ◌↔◌, true, false, some, [], ◌∷◌, refl}
use arango_sparql_py.Base.Eq.{nat_eq, list_eq}
use arango_sparql_py.Base.Lists.{contains}
use arango_sparql_py.Base.Dict.{get, put, remove}
use arango_sparql_py.Base.Str.{Str, codes}
use arango_sparql_py.Service.Warm.{
  Mode, Phase, State, Step, Reachable, is_warming, request_rebuild, check_rebuild, clear_marks,
  start, schedule_warm, add, discard,
}
use arango_sparql_py.Service.Warm.Once.{count, one_warm}
use arango_sparql_py.Service.Warm.Requests.{
  Meanwhile, IsRebuilding, rebuild_is_answered, late_request_is_dropped,
}
use Mode.{rebuild, revalidate}
use Phase.{working, rebuilding, finishing}

abbrev iam : Str
iam = codes "IAM"

abbrev in_phase : Phase → State
in_phase phase = record {
  inflight = (iam, revalidate) ∷ [];
  rebuild_after = [];
  errors = [];
  threads = (iam, phase) ∷ [];
}

working-Reachable : Reachable (in_phase (working revalidate))
unfolding schedule_warm start get put remove
working-Reachable = Reachable.then_step Reachable.at_start (Step.schedule_step (some iam) true)

finishing-Reachable : Reachable (in_phase finishing)
unfolding check_rebuild discard
finishing-Reachable =
    Reachable.then_step working-Reachable (Step.checked_step [] [] iam revalidate refl)

one_warm_example :
    (count iam (in_phase finishing).threads ≤ 1)
    × ((is_warming iam (in_phase finishing) ≡ true) ↔ (count iam (in_phase finishing).threads ≡ 1))
one_warm_example = one_warm (in_phase finishing) iam finishing-Reachable

abbrev crm : Str
crm = codes "CRM"

-- another database's warm starts, and its check finds nothing
abbrev beside : Phase → State
beside phase = record {
  inflight = (iam, revalidate) ∷ (crm, rebuild) ∷ [];
  rebuild_after = iam ∷ [];
  errors = [];
  threads = (crm, phase) ∷ (iam, working revalidate) ∷ [];
}

abbrev answered_state : State
answered_state = record {
  inflight = (iam, rebuild) ∷ (crm, rebuild) ∷ [];
  rebuild_after = [];
  errors = [];
  threads = (crm, finishing) ∷ (iam, rebuilding) ∷ [];
}

other_starts : Step (request_rebuild iam (in_phase (working revalidate))) (beside (working rebuild))
unfolding request_rebuild schedule_warm start add get put remove
other_starts = Step.schedule_step (some crm) false

other_checks : Step (beside (working rebuild)) (beside finishing)
unfolding check_rebuild discard
other_checks = Step.checked_step [] ((iam, working revalidate) ∷ []) crm rebuild refl

own_check : Step (beside finishing) answered_state
unfolding check_rebuild discard put
own_check = Step.checked_step ((crm, finishing) ∷ []) [] iam revalidate refl

answered_state-Reachable : Reachable answered_state
answered_state-Reachable =
    Reachable.then_step
      (Reachable.then_step
        (Reachable.then_step (Reachable.then_step working-Reachable (Step.request_step iam))
          other_starts)
        other_checks)
      own_check

meanwhile : Meanwhile iam (request_rebuild iam (in_phase (working revalidate))) (beside finishing)
unfolding other_starts other_checks
meanwhile =
    Meanwhile.then_other (Meanwhile.then_other Meanwhile.at_once other_starts tt) other_checks refl

rebuild_is_answered_example : IsRebuilding iam answered_state
unfolding get own_check
rebuild_is_answered_example =
    rebuild_is_answered iam (in_phase (working revalidate)) (beside finishing) answered_state refl
      meanwhile own_check refl

late_request_is_dropped_example :
    let t = clear_marks iam (request_rebuild iam (in_phase finishing)) in
    (contains iam t.rebuild_after ≡ false) × (is_warming iam t ≡ false) × (count iam [] ≡ 0)
late_request_is_dropped_example =
    late_request_is_dropped [] [] iam (in_phase finishing) finishing-Reachable refl
