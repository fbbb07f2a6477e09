-- ===== src/Orchestration/Calls/Atomic.antt =====
-- A call that raises leaves the plan as it was.
use equi_seek.Prelude.{
  String, eq_iff, ◌≡◌, refl, true, some, arith, [], ◌∷◌, inl, inr, Option-cases,
}
use equi_seek.Dict.{Dict, lookup, adjust, lookup-adjust}
use equi_seek.Orchestration.Spec.{TaskRecord}
use equi_seek.Orchestration.Plan.{Plan, PlanError, Clock, require, with_task, with_result}
use equi_seek.Orchestration.Ops.{
  start_task, succeed_task, fail_task, mark_unknown_outcome, wait_for_approval, request_approval,
  resume_task, approve_task, skip_task, cancel, abort, recover_interrupted,
}
use equi_seek.Orchestration.Revise.{
  revise, recover_from_failure, with_failed, adopt, supersede, restore,
}
use equi_seek.Orchestration.Calls.{
  Call, start, wait, request, resume, approve, succeed, fail, mark_unknown, skip, cancelled,
  interrupted, aborted, revised, recovered, perform,
}

-- The handler of `recover_from_failure` takes back what it did to the failed task.
pub adjust-restore :
    (k : String) (r : TaskRecord) (m : Dict TaskRecord)
    → lookup k m ≡ some r
    → adjust k (restore r) (adjust k supersede m) ≡ m
unfolding lookup adjust
adjust-restore k r [] e = refl
adjust-restore k r ((j, s) ∷ m) e = ground (arith, eq_iff j k, adjust-restore k r m)

-- A call that raises, whatever the method and wherever it raises, leaves the plan as it was.
pub perform_atomic :
    (now : Clock) (c : Call) (p : Plan) (e : PlanError)
    → (perform now c p).0 ≡ some e
    → (perform now c p).1 ≡ p
unfolding perform require with_task with_result start_task succeed_task fail_task
    mark_unknown_outcome wait_for_approval request_approval resume_task approve_task skip_task
    cancel abort recover_interrupted revise recover_from_failure with_failed adopt
perform_atomic now (start id) p e h = ground arith
perform_atomic now (succeed id result summary) p e h = ground arith
perform_atomic now (fail id error) p e h = ground arith
perform_atomic now (mark_unknown id error) p e h = ground arith
perform_atomic now (wait id) p e h = ground arith
perform_atomic now (request id) p e h = ground arith
perform_atomic now (resume id) p e h = ground arith
perform_atomic now (approve id) p e h =
    ground (arith, eq_iff id id, lookup-adjust id id (λ s. record s { approved = true }) p.tasks)
perform_atomic now (skip id reason) p e h = ground arith
perform_atomic now cancelled p e h = cc
perform_atomic now (aborted error) p e h = cc
perform_atomic now interrupted p e h = cc
perform_atomic now (revised upsert remove reason actor) p e h = ground arith
perform_atomic now (recovered id add removed reason actor) p e h =
    elim (Option-cases (lookup id p.tasks)) [
      | inl absent ↦ ground arith
      | inr (r, found) ↦ ground (arith, adjust-restore id r p.tasks found)
    ]
