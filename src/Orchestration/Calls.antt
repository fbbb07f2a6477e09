-- ===== src/Orchestration/Calls.antt =====
-- Every method of `ExecutionPlan` (src/aegisrun/orchestration/models.py) as a call that a client
-- can make, with the exception that it raises and the plan that it leaves.
pub mod Atomic
pub mod Evolve
pub mod Cases
pub mod Safe
pub mod Evidence
pub mod Built
use equi_seek.Prelude.{String, Option, none, some, Bool, List}
use equi_seek.Dict.{Dict}
use equi_seek.Data.Json.{Value}
use equi_seek.Orchestration.Spec.{TaskSpec}
use equi_seek.Orchestration.Plan.{Plan, PlanError, Clock, Result, ok, err}
use equi_seek.Orchestration.Ops.{
  start_task, succeed_task, fail_task, mark_unknown_outcome, wait_for_approval, request_approval,
  resume_task, approve_task, skip_task, cancel, abort, recover_interrupted,
}
use equi_seek.Orchestration.Revise.{revise, recover_from_failure}

pub data Call : Type 0 where
  start wait request resume approve : (id : String) → Call
  succeed : (id : String) → Dict Value → (summary : Option String) → Call
  fail mark_unknown : (id error : String) → Call
  skip : (id reason : String) → Call
  cancelled interrupted : Call
  aborted : (error : String) → Call
  revised : List TaskSpec → (remove : List String) → (reason actor : String) → Call
  recovered :
      (failed_id : String)
      → List TaskSpec
      → (remove_skipped : List String) → (reason actor : String) → Call

abbrev pub error_of : {A : Type 0} → Result A → Option PlanError
error_of (ok a) = none
error_of (err e) = some e

abbrev pub outcome : {A : Type 0} → Result A × Plan → Option PlanError × Plan
outcome (x, p) = (error_of x, p)

unfoldable pub perform : Clock → Call → Plan → Option PlanError × Plan
perform now (start id) p = outcome (start_task now id p)
perform now (succeed id result summary) p = outcome (succeed_task now id result summary p)
perform now (fail id error) p = outcome (fail_task now id error p)
perform now (mark_unknown id error) p = outcome (mark_unknown_outcome now id error p)
perform now (wait id) p = outcome (wait_for_approval now id p)
perform now (request id) p = outcome (request_approval now id p)
perform now (resume id) p = outcome (resume_task now id p)
perform now (approve id) p = outcome (approve_task now id p)
perform now (skip id reason) p = outcome (skip_task now id reason p)
perform now cancelled p = outcome (cancel now p)
perform now (aborted error) p = outcome (abort now error p)
perform now interrupted p = outcome (recover_interrupted now p)
perform now (revised upsert remove reason actor) p =
    outcome (revise now upsert remove reason actor p)
perform now (recovered id add removed reason actor) p =
    outcome (recover_from_failure now id add removed reason actor p)
