-- ===== src/Orchestration/Status.antt =====
-- `PlanStatus` and `TaskStatus` of src/aegisrun/orchestration/models.py.
use equi_seek.Prelude.{Bool, true, false}

pub data PlanStatus : Type 0 where
  pending running waiting_approval succeeded failed cancelled : PlanStatus

pub data TaskStatus : Type 0 where
  pending running waiting_approval succeeded failed unknown_outcome superseded skipped cancelled :
      TaskStatus

abbrev pub plan_terminal : PlanStatus → Bool
plan_terminal PlanStatus.succeeded = true
plan_terminal PlanStatus.failed = true
plan_terminal PlanStatus.cancelled = true
plan_terminal _ = false

abbrev pub terminal : TaskStatus → Bool
terminal TaskStatus.pending = false
terminal TaskStatus.running = false
terminal TaskStatus.waiting_approval = false
terminal _ = true

-- the tests `status is TaskStatus.X`
abbrev pub is_pending : TaskStatus → Bool
is_pending TaskStatus.pending = true
is_pending _ = false

abbrev pub is_running : TaskStatus → Bool
is_running TaskStatus.running = true
is_running _ = false

abbrev pub is_waiting : TaskStatus → Bool
is_waiting TaskStatus.waiting_approval = true
is_waiting _ = false

abbrev pub is_failed : TaskStatus → Bool
is_failed TaskStatus.failed = true
is_failed _ = false

abbrev pub is_skipped : TaskStatus → Bool
is_skipped TaskStatus.skipped = true
is_skipped _ = false

abbrev pub is_unknown : TaskStatus → Bool
is_unknown TaskStatus.unknown_outcome = true
is_unknown _ = false

-- `status in {SUCCEEDED, SKIPPED}`: a dependency that lets its dependents start
abbrev pub satisfies : TaskStatus → Bool
satisfies TaskStatus.succeeded = true
satisfies TaskStatus.skipped = true
satisfies _ = false

-- `status in {FAILED, UNKNOWN_OUTCOME}`
abbrev pub is_failure : TaskStatus → Bool
is_failure TaskStatus.failed = true
is_failure TaskStatus.unknown_outcome = true
is_failure _ = false

abbrev pub is_plan_failed : PlanStatus → Bool
is_plan_failed PlanStatus.failed = true
is_plan_failed _ = false

abbrev pub is_plan_waiting : PlanStatus → Bool
is_plan_waiting PlanStatus.waiting_approval = true
is_plan_waiting _ = false
