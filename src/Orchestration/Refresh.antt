-- ===== src/Orchestration/Refresh.antt =====
-- The parts of src/aegisrun/orchestration/models.py that look at every task of a plan:
-- `_skip_blocked`, `_stop_after_unknown_outcome`, `_refresh_status` and `ready_task_ids`.
pub mod Sweep
pub mod Skip
pub mod Ready
pub mod Progress
use equi_seek.Prelude.{
  ℕ, zero, suc, String, List, [], ◌∷◌, Bool, true, false, not, ◌&&◌, ◌||◌, any, elem, length, none,
  some, if◌then◌else◌,
}
use equi_seek.Dict.{Dict, lookup, update_all, any_value}
use equi_seek.Orchestration.Status.{
  PlanStatus, TaskStatus, plan_terminal, terminal, is_pending, is_running, is_waiting, is_unknown,
  is_failure, satisfies,
}
use equi_seek.Orchestration.Spec.{TaskRecord}
use equi_seek.Orchestration.Plan.{Plan, Clock, of_task, Result, ok, err, key_error, touch}
use equi_seek.Orchestration.Dag.{deps}

-- `failed` at the start of `_skip_blocked`
unfoldable pub failure_ids : Dict TaskRecord → List String
failure_ids [] = []
failure_ids ((k, r) ∷ m) =
    let rest = failure_ids m in if is_failure r.status then k ∷ rest else rest

abbrev pub skip_record : String → Clock → String → TaskRecord → TaskRecord
skip_record summary now k r = record r {
  status = TaskStatus.skipped;
  summary = some summary;
  finished_at = some (now (of_task k));
}

-- pending, with `set(record.spec.depends_on) & failed`
unfoldable pub is_blocked : List String → TaskRecord → Bool
is_blocked failed r = is_pending r.status && any (λ d. elem d failed) (deps r)

-- One round of the `while` loop: the records, `failed` and `changed` after it.
unfoldable pub sweep : Clock → List String → Dict TaskRecord → Dict TaskRecord × List String × Bool
sweep now failed [] = ([], failed, false)
sweep now failed ((k, r) ∷ m) =
    let b = is_blocked failed r in
    let (m', failed', changed) = sweep now (if b then k ∷ failed else failed) m in
    ((k, if b then skip_record "dependency failed" now k r else r) ∷ m', failed', b || changed)

unfoldable pub sweeps : ℕ → Clock → List String → Dict TaskRecord → Dict TaskRecord
sweeps zero now failed m = m
sweeps (suc fuel) now failed m =
    let (m', failed', changed) = sweep now failed m in
    elim changed [ true ↦ sweeps fuel now failed' m' | false ↦ m' ]

-- `_skip_blocked`. Each round but the last skips a task, so there are at most `length m` more.
unfoldable pub skip_blocked : Clock → Dict TaskRecord → Dict TaskRecord
skip_blocked now m = sweeps (suc (length m)) now (failure_ids m) m

abbrev pub stop_record : Clock → String → TaskRecord → TaskRecord
stop_record now k r =
    if terminal r.status
    then r
    else skip_record "plan stopped after unknown side-effect outcome" now k r

-- `_stop_after_unknown_outcome`
unfoldable pub stop_after_unknown : Clock → Dict TaskRecord → Dict TaskRecord
stop_after_unknown now m =
    if any_value (λ r. is_unknown r.status) m then update_all (stop_record now) m else m

-- the status that `_refresh_status` gives
unfoldable pub refreshed : Dict TaskRecord → PlanStatus
refreshed m =
    if any_value (λ r. is_failure r.status) m
    then PlanStatus.failed
    else if any_value (λ r. is_waiting r.status) m
    then PlanStatus.waiting_approval
    else if not (any_value (λ r. not (terminal r.status)) m)
    then PlanStatus.succeeded
    else if any_value (λ r. is_running r.status) m
    then PlanStatus.running
    else PlanStatus.pending

-- `_refresh_status`
unfoldable pub refresh : Clock → Plan → Plan
refresh now p = touch now (record p { status = refreshed p.tasks })

-- `[self.tasks[item].status for item in depends_on]`, and whether each lets the task start
unfoldable pub all_satisfied : Dict TaskRecord → List String → Result Bool
all_satisfied tasks [] = ok true
all_satisfied tasks (d ∷ ds) = elim (lookup d tasks) [
  | none ↦ err (key_error d)
  | some r ↦ elim (all_satisfied tasks ds) [ ok b ↦ ok (satisfies r.status && b) | err e ↦ err e ]
]

abbrev add_ready : String → Result Bool → Result (List String) → Result (List String)
add_ready k (err e) rest = err e
add_ready k (ok b) (err e) = err e
add_ready k (ok b) (ok ids) = ok (if b then k ∷ ids else ids)

unfoldable pub ready_in : Dict TaskRecord → Dict TaskRecord → Result (List String)
ready_in tasks [] = ok []
ready_in tasks ((k, r) ∷ m) =
    let rest = ready_in tasks m in
    if is_pending r.status then add_ready k (all_satisfied tasks (deps r)) rest else rest

-- `ready_task_ids`
unfoldable pub ready_task_ids : Plan → Result (List String)
ready_task_ids p = if plan_terminal p.status then ok [] else ready_in p.tasks p.tasks
