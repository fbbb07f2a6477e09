-- ===== src/Orchestration/Ops.antt =====
-- The methods of `ExecutionPlan` in src/aegisrun/orchestration/models.py that change one task or
-- end the plan. A guard that raises stands before every write, as in the source.
use equi_seek.Prelude.{◌+◌, String, Bool, true, not, Option, none, some, elem, ltb, if◌then◌else◌}
use equi_seek.Dict.{Dict, update_all, any_value}
use equi_seek.Data.Json.{Value}
use equi_seek.Orchestration.Status.{
  PlanStatus, TaskStatus, terminal, is_pending, is_running, is_waiting, is_unknown,
}
use equi_seek.Orchestration.Spec.{TaskRecord}
use equi_seek.Orchestration.Plan.{
  Clock, of_task, ok, Method, require, with_task, with_result, set_task, touch, not_pending,
  not_ready, not_running, not_side_effect, already_terminal, no_approval_required, not_waiting,
}
use equi_seek.Orchestration.Refresh.{
  skip_record, skip_blocked, stop_after_unknown, refresh, ready_task_ids,
}

abbrev pub finish : TaskStatus → Clock → String → TaskRecord → TaskRecord
finish status now id r = record r { status = status; finished_at = some (now (of_task id)) }

unfoldable pub start_task : Clock → String → Method (Unit {0})
start_task now id = with_task id λ r. require (is_pending r.status) (not_pending id) λ p.
    with_result (ready_task_ids p)
      (λ ids. require (elem id ids) (not_ready id) λ q. (
        ok tt,
        touch now
            (record (set_task id
              (λ s. record s {
                status = TaskStatus.running;
                attempts = s.attempts + 1;
                started_at = some (now (of_task id));
                finished_at = none;
                error = none;
              })
              q) { status = PlanStatus.running }),
      ))
      p

unfoldable pub succeed_task : Clock → String → Dict Value → Option String → Method (Unit {0})
succeed_task now id result summary = with_task id λ r.
    require (is_running r.status) (not_running id) λ p. (
      ok tt,
      refresh now (
          set_task id
            (λ s. record s {
              status = TaskStatus.succeeded;
              result = result;
              summary = summary;
              finished_at = some (now (of_task id));
            })
            p),
    )

-- `record.attempts < record.spec.max_attempts`
abbrev pub may_retry : TaskRecord → Bool
may_retry r = ltb r.attempts r.spec.max_attempts

abbrev pub fail_record : Clock → String → String → TaskRecord → TaskRecord
fail_record now id error r = record r {
  error = some error;
  finished_at = some (now (of_task id));
  status = if may_retry r then TaskStatus.pending else TaskStatus.failed;
}

unfoldable pub fail_task : Clock → String → String → Method Bool
fail_task now id error = with_task id λ r. require (is_running r.status) (not_running id) λ p.
    let q = set_task id (fail_record now id error) p in
    (
      ok (may_retry r),
      refresh now (if may_retry r then q else record q { tasks = skip_blocked now q.tasks }),
    )

unfoldable pub mark_unknown_outcome : Clock → String → String → Method (Unit {0})
mark_unknown_outcome now id error = with_task id λ r.
    require r.spec.side_effect (not_side_effect id) (
      require (not (terminal r.status)) (already_terminal id) λ p.
        let q =
          set_task id
            (λ s. record s {
              status = TaskStatus.unknown_outcome;
              error = some error;
              finished_at = some (now (of_task id));
            })
            p in
        (
          ok tt,
          refresh now (record q { tasks = stop_after_unknown now (skip_blocked now q.tasks) }),
        ))

abbrev pub set_status : TaskStatus → TaskRecord → TaskRecord
set_status status r = record r { status = status }

unfoldable pub wait_for_approval : Clock → String → Method (Unit {0})
wait_for_approval now id = with_task id λ r. require (is_running r.status) (not_running id) λ p. (
  ok tt,
  touch now (record (set_task id (set_status TaskStatus.waiting_approval) p) {
    status = PlanStatus.waiting_approval;
  }),
)

unfoldable pub request_approval : Clock → String → Method (Unit {0})
request_approval now id = with_task id λ r. require (is_pending r.status) (not_pending id) λ p.
    with_result (ready_task_ids p)
      (λ ids. require (elem id ids) (not_ready id) (
        require r.spec.approval_required (no_approval_required id) λ q. (
          ok tt,
          touch now (record (set_task id (set_status TaskStatus.waiting_approval) q) {
            status = PlanStatus.waiting_approval;
          }),
        )))
      p

unfoldable pub resume_task : Clock → String → Method (Unit {0})
resume_task now id = with_task id λ r. require (is_waiting r.status) (not_waiting id) λ p. (
  ok tt,
  touch now
      (record (set_task id (set_status TaskStatus.pending) p) { status = PlanStatus.pending }),
)

unfoldable pub approve_task : Clock → String → Method (Unit {0})
unfolding resume_task
approve_task now id = with_task id λ r. require r.spec.approval_required (no_approval_required id) (
    require (is_waiting r.status) (not_waiting id)
      λ p. resume_task now id (set_task id (λ s. record s { approved = true }) p))

unfoldable pub skip_task : Clock → String → String → Method (Unit {0})
skip_task now id reason = with_task id λ r.
    require (is_pending r.status) (not_pending id)
      λ p. (ok tt, refresh now (set_task id (skip_record reason now id) p))

abbrev pub cancel_record : Clock → String → TaskRecord → TaskRecord
cancel_record now id r = if terminal r.status then r else finish TaskStatus.cancelled now id r

unfoldable pub cancel : Clock → Method (Unit {0})
cancel now p = (
  ok tt,
  touch now
      (record p { tasks = update_all (cancel_record now) p.tasks; status = PlanStatus.cancelled }),
)

abbrev pub abort_record : Clock → String → String → TaskRecord → TaskRecord
abort_record now error id r =
    if is_running r.status
    then record (finish TaskStatus.failed now id r) { error = some error }
    else if terminal r.status
    then r
    else skip_record "plan aborted" now id r

unfoldable pub abort : Clock → String → Method (Unit {0})
abort now error p = (
  ok tt,
  touch now (record p {
    tasks = update_all (abort_record now error) p.tasks;
    status = PlanStatus.failed;
  }),
)

abbrev pub interrupt_record : String → TaskRecord → TaskRecord
interrupt_record id r =
    if is_running r.status
    then record r {
      status = if r.spec.side_effect then TaskStatus.unknown_outcome else TaskStatus.pending;
      recoveries = r.recoveries + 1;
      error = some (
          if r.spec.side_effect
          then "interrupted side effect has unknown outcome"
          else "interrupted execution recovered");
    }
    else r

unfoldable pub recover_interrupted : Clock → Method (Unit {0})
recover_interrupted now p =
    let tasks = update_all interrupt_record p.tasks in
    let stopped = stop_after_unknown now (skip_blocked now tasks) in
    (
      ok tt,
      if any_value (λ r. is_running r.status) p.tasks
          then touch now (record p {
            tasks = stopped;
            status =
                if any_value (λ r. is_unknown r.status) stopped
                then PlanStatus.failed
                else PlanStatus.pending;
          })
          else p,
    )
