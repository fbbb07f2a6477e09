-- ===== src/Orchestration/Tests.antt =====
-- Small plans, what the methods do on them, and the theorems at these inputs.
use equi_seek.Prelude.{
  String, ◌≡◌, refl, true, none, some, List, [], ◌∷◌, elem, is_distinct, any, arith, inl, inr, ◌⊎◌,
  ◌↔◌,
}
use equi_seek.Data.Text.{strip}
use equi_seek.Dict.{Dict, lookup, erase, insert, adjust, keys, any_value}
use equi_seek.Orchestration.Status.{PlanStatus, TaskStatus, is_pending, satisfies}
use equi_seek.Orchestration.Spec.{
  TaskSpec, TaskRecord, default_spec, new_record, is_safe_id, check_spec, no_idempotency_key,
}
use equi_seek.Orchestration.Plan.{
  Plan, Clock, of_creation, of_touch, ok, require, with_task, with_result, touch, not_ready, cycle,
}
use equi_seek.Orchestration.Dag.{
  validate_dag, find_missing, visit_all, visit, visit_each, visit_step, IsAcyclic, deps,
}
use equi_seek.Orchestration.Dag.Complete.{validate_dag_iff}
use equi_seek.Orchestration.Refresh.{
  skip_blocked, sweeps, sweep, failure_ids, is_blocked, refresh, refreshed, ready_task_ids,
  ready_in, all_satisfied,
}
use equi_seek.Orchestration.Refresh.Sweep.{Doomed, skipped_by}
use equi_seek.Orchestration.Refresh.Skip.{skip_blocked_lem}
use equi_seek.Orchestration.Refresh.Ready.{AllSatisfied}
use equi_seek.Orchestration.Refresh.Progress.{ready_task_ids_iff, ready_task_ids-progress}
use equi_seek.Orchestration.Ops.{start_task, succeed_task, fail_task}
use equi_seek.Orchestration.Revise.{
  create, new_records, recover_from_failure, recovery_tasks, remove_skipped, add_specs, adopt,
  with_failed,
}
use equi_seek.Orchestration.WellFormed.{IsWellFormed}
use equi_seek.Orchestration.Triage.{issue_triage_plan, triage_specs, check_specs}
use equi_seek.Orchestration.Calls.{Call, start, succeed, fail, cancelled, recovered, perform}
use equi_seek.Orchestration.Calls.Built.{Built, made, then_called, IsPlanned, Built-IsPlanned}
use equi_seek.Orchestration.Calls.Atomic.{perform_atomic}
use equi_seek.Orchestration.Calls.Safe.{Reachable, created, called, Reachable-IsWellFormed}
use equi_seek.Orchestration.Calls.Evidence.{perform-IsKept}

abbrev now : Clock
now = λ _. "2026-01-01T00:00:00+00:00"

abbrev after_a : TaskSpec
after_a = record (default_spec "b" "B" "work") { depends_on = "a" ∷ [] }

abbrev specs : List TaskSpec
specs = default_spec "a" "A" "work" ∷ after_a ∷ []

abbrev tasks : Dict TaskRecord
tasks = ("a", new_record (default_spec "a" "A" "work")) ∷ ("b", new_record after_a) ∷ []

abbrev fresh_plan : Plan
fresh_plan = record {
  id = "p";
  goal = "g";
  tasks = tasks;
  status = PlanStatus.pending;
  version = 1;
  created_at = "2026-01-01T00:00:00+00:00";
  updated_at = "2026-01-01T00:00:00+00:00";
  context = [];
  revisions = [];
}

-- opens what the tests below run
program : Unit {0}
unfolding perform start_task succeed_task fail_task require with_task with_result touch refresh
    refreshed ready_task_ids ready_in all_satisfied skip_blocked sweeps sweep failure_ids is_blocked
    create new_records validate_dag find_missing visit_all visit visit_each visit_step is_distinct
    elem any any_value keys insert adjust lookup is_safe_id
program = tt

create-specs : create now "p" "g" specs [] ≡ ok fresh_plan
unfolding program
create-specs = refl

fresh : Reachable fresh_plan
fresh = created now "p" "g" specs [] create-specs

abbrev one_done : Plan
one_done = (perform now (succeed "a" [] none) (perform now (start "a") fresh_plan).1).1

Reachable-one_done : Reachable one_done
Reachable-one_done = called now (succeed "a" [] none) (called now (start "a") fresh tt refl) tt refl

Reachable-IsWellFormed_example : IsWellFormed one_done.tasks
Reachable-IsWellFormed_example = Reachable-IsWellFormed Reachable-one_done

abbrev done_a : TaskRecord
done_a = record (new_record (default_spec "a" "A" "work")) {
  status = TaskStatus.succeeded;
  attempts = 1;
  started_at = some "2026-01-01T00:00:00+00:00";
  finished_at = some "2026-01-01T00:00:00+00:00";
}

done_in_plan : lookup "a" one_done.tasks ≡ some done_a
unfolding program
done_in_plan = refl

perform-IsKept_example : lookup "a" (perform now cancelled one_done).1.tasks ≡ some done_a
perform-IsKept_example =
    perform-IsKept now one_done Reachable-IsWellFormed_example.distinct "a" done_a done_in_plan refl
      cancelled

starts_in_order : (perform now (start "b") fresh_plan).0 ≡ some (not_ready "b")
unfolding program
starts_in_order = refl

perform_atomic_example : (perform now (start "b") fresh_plan).1 ≡ fresh_plan
perform_atomic_example = perform_atomic now (start "b") fresh_plan (not_ready "b") starts_in_order

keys-tasks : is_distinct (keys tasks) ≡ true
unfolding program
keys-tasks = refl

validate_dag_iff_example : (validate_dag tasks ≡ none) ↔ IsAcyclic tasks
validate_dag_iff_example = validate_dag_iff tasks keys-tasks

abbrev failed_a : TaskRecord
failed_a = record done_a { status = TaskStatus.failed }

abbrev with_failure : Dict TaskRecord
with_failure = ("a", failed_a) ∷ ("b", new_record after_a) ∷ []

skip_blocked_lem_example :
    (is_pending TaskStatus.pending ≡ true
      → Doomed with_failure "b"
      → lookup "b" (skip_blocked now with_failure) ≡ some (skipped_by now "b" (new_record after_a)))
    × (¬ ((is_pending TaskStatus.pending ≡ true) × Doomed with_failure "b")
        → lookup "b" (skip_blocked now with_failure) ≡ some (new_record after_a))
unfolding program
skip_blocked_lem_example = skip_blocked_lem with_failure now refl "b" (new_record after_a) refl

skip_runs :
    skip_blocked now with_failure
    ≡ ("a", failed_a) ∷ ("b", skipped_by now "b" (new_record after_a)) ∷ []
unfolding program
skip_runs = refl

cycle_refused :
    validate_dag (("b", new_record (record after_a { depends_on = "b" ∷ [] })) ∷ []) ≡ some cycle
unfolding program
cycle_refused = refl

fresh-IsWellFormed : IsWellFormed fresh_plan.tasks
fresh-IsWellFormed = Reachable-IsWellFormed fresh

ready_task_ids_iff_example :
    (ids : List String) × (ready_task_ids fresh_plan ≡ ok ids)
    × ((k : String) (r : TaskRecord)
        → lookup k fresh_plan.tasks ≡ some r
        → (elem k ids ≡ true)
          ↔ ((is_pending r.status ≡ true) × AllSatisfied fresh_plan.tasks (deps r)))
ready_task_ids_iff_example = ready_task_ids_iff fresh_plan fresh-IsWellFormed refl

all_pending :
    (j : String) (s : TaskRecord)
    → lookup j fresh_plan.tasks ≡ some s
    → (is_pending s.status ≡ true) ⊎ (satisfies s.status ≡ true)
unfolding lookup
all_pending j s e = inl (ground arith)

found_a : lookup "a" fresh_plan.tasks ≡ some (new_record (default_spec "a" "A" "work"))
unfolding program
found_a = refl

ready_task_ids-progress_example :
    (ids : List String) × (j : String) × (ready_task_ids fresh_plan ≡ ok ids) × (elem j ids ≡ true)
ready_task_ids-progress_example =
    ready_task_ids-progress fresh_plan fresh-IsWellFormed refl "a"
      (new_record (default_spec "a" "A" "work")) found_a refl all_pending

abbrev triage_plan : Plan
triage_plan = record {
  id = "run-1";
  goal = "复现问题、最小修复并验证结果";
  tasks = new_records (triage_specs "run-1") [];
  status = PlanStatus.pending;
  version = 1;
  created_at = now of_creation;
  updated_at = now of_touch;
  context = [];
  revisions = [];
}

triage_accepted : issue_triage_plan now "run-1" ≡ inr (ok triage_plan)
unfolding program issue_triage_plan check_specs check_spec
triage_accepted = refl

no_key : check_spec (record after_a { side_effect = true }) ≡ some no_idempotency_key
unfolding program check_spec
no_key = refl

abbrev new_b : TaskSpec
new_b = default_spec "b" "B again" "work"

abbrev readd_b : Call
readd_b = recovered "a" (new_b ∷ []) ("b" ∷ []) "other data" "planner"

abbrev readded : Plan
readded =
    (perform now readd_b
      (perform now (fail "a" "broken") (perform now (start "a") fresh_plan).1).1).1

readds_b : lookup "b" readded.tasks ≡ some (new_record new_b)
unfolding program recover_from_failure recovery_tasks remove_skipped add_specs adopt with_failed
    strip erase
readds_b = refl

Built-readded : Built readded
Built-readded =
    then_called now readd_b
      (then_called now (fail "a" "broken")
        (then_called now (start "a") (made now "p" "g" specs [] create-specs) refl) refl)
      refl

Built-IsPlanned_example : IsPlanned readded.tasks
Built-IsPlanned_example = Built-IsPlanned Built-readded
