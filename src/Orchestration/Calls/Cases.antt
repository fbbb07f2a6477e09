-- ===== src/Orchestration/Calls/Cases.antt =====
-- What a call does to the tasks of a plan: one rule for all of them.
use equi_seek.Prelude.{String, ◌≡◌, true, false, none, some, List, elem, is_distinct}
use equi_seek.Dict.{Dict, lookup, keys, adjust}
use equi_seek.Orchestration.Status.{TaskStatus}
use equi_seek.Orchestration.Spec.{TaskSpec, TaskRecord}
use equi_seek.Orchestration.Plan.{Plan, Clock, Result, require_cases, with_result_cases}
use equi_seek.Orchestration.Dag.{IsAcyclic}
use equi_seek.Orchestration.Dag.Sound.{validate_dag-IsAcyclic}
use equi_seek.Orchestration.Evolves.{Evolves, Evolves-refl}
use equi_seek.Orchestration.Refresh.Ready.{AllSatisfied}
use equi_seek.Orchestration.Revise.{
  ids, revise, revise_tasks, recover_from_failure, recovery_tasks, adopt_cases, with_failed_cases,
  supersede,
}
use equi_seek.Orchestration.Revise.Changes.{Changes, NotPending}
use equi_seek.Orchestration.Revise.Loops.{NotSkipped, revise_tasks-Changes, recovery_tasks-Changes}
use equi_seek.Orchestration.Calls.{
  Call, start, wait, request, resume, approve, succeed, fail, mark_unknown, skip, cancelled,
  interrupted, aborted, revised, recovered, perform,
}
use equi_seek.Orchestration.Calls.Atomic.{adjust-restore}
use equi_seek.Orchestration.Calls.Evolve.{
  start_task-Evolves, succeed_task-Evolves, fail_task-Evolves, mark_unknown_outcome-Evolves,
  wait_for_approval-Evolves, request_approval-Evolves, resume_task-Evolves, approve_task-Evolves,
  skip_task-Evolves, cancel-Evolves, abort-Evolves, recover_interrupted-Evolves,
}

-- What holds of the tasks of `p` after each kind of change holds of them after every call.
module _ (P : Dict TaskRecord → Type 0) (now : Clock) (p : Plan)
    (u : is_distinct (keys p.tasks) ≡ true)
    (evolved : (m : Dict TaskRecord) → Evolves (AllSatisfied p.tasks) p.tasks m → P m) where
  unchanged : P p.tasks
  unchanged = evolved p.tasks (Evolves-refl (AllSatisfied p.tasks) p.tasks)

  abbrev Good : Result (Unit {0}) × Plan → Type 0
  Good x = P x.1.tasks

  revise_cases :
      (upsert : List TaskSpec) (remove : List String) (reason actor : String)
      → ((m : Dict TaskRecord) → Changes NotPending (ids upsert) p.tasks m → IsAcyclic m → P m)
      → Good (revise now upsert remove reason actor p)
  unfolding revise
  revise_cases upsert remove reason actor h = require_cases Good _ _ _ p unchanged λ live.
      require_cases Good _ _ _ p unchanged λ reasoned. require_cases Good _ _ _ p unchanged λ idle.
        require_cases Good _ _ _ p unchanged λ unique.
          with_result_cases Good (revise_tasks upsert remove p.tasks) _ p (λ _. unchanged)
            λ candidate changed. require_cases Good _ _ _ p unchanged λ some_task.
              adopt_cases P now candidate p.tasks _ p
                (λ accepted.
                  h candidate (revise_tasks-Changes upsert remove p.tasks candidate changed)
                    (validate_dag-IsAcyclic candidate accepted))
                unchanged

  recover_cases :
      (id : String) (add : List TaskSpec) (removed : List String) (reason actor : String)
      → ((failed : TaskRecord) (m : Dict TaskRecord)
          → lookup id p.tasks ≡ some failed
          → failed.status ≡ TaskStatus.failed
          → Changes (NotSkipped removed) (ids add) p.tasks m
          → ((k : String) → elem k removed ≡ true → elem k (ids add) ≡ false → lookup k m ≡ none)
          → IsAcyclic (adjust id supersede m)
          → P (adjust id supersede m))
      → Good (recover_from_failure now id add removed reason actor p)
  unfolding recover_from_failure
  recover_cases id add removed reason actor h = require_cases Good _ _ _ p unchanged λ over.
      with_failed_cases Good id _ p (λ _. unchanged)
        λ failed found has_failed. require_cases Good _ _ _ p unchanged λ pure.
          require_cases Good _ _ _ p unchanged λ reasoned.
            require_cases Good _ _ _ p unchanged λ unique.
              with_result_cases Good (recovery_tasks add removed p.tasks) _ p (λ _. unchanged)
                λ candidate built.
                  let (changes, gone) =
                    recovery_tasks-Changes add removed p.tasks candidate built in
                  adopt_cases P now (adjust id supersede candidate) _ _ p
                    (λ accepted.
                      h failed candidate found has_failed changes gone
                        (validate_dag-IsAcyclic _ accepted))
                    (rw (adjust-restore id failed p.tasks found) unchanged)

  -- `P` after a call, with what is asked of `P` after a revision and after a recovery.
  abbrev pub Asks : Call → Type 0
  Asks (revised upsert remove reason actor) =
      (m : Dict TaskRecord) → Changes NotPending (ids upsert) p.tasks m → IsAcyclic m → P m
  Asks (recovered id add removed reason actor) =
      (failed : TaskRecord) (m : Dict TaskRecord)
      → lookup id p.tasks ≡ some failed
      → failed.status ≡ TaskStatus.failed
      → Changes (NotSkipped removed) (ids add) p.tasks m
      → ((k : String) → elem k removed ≡ true → elem k (ids add) ≡ false → lookup k m ≡ none)
      → IsAcyclic (adjust id supersede m)
      → P (adjust id supersede m)
  Asks _ = Unit {0}

  pub perform_cases : (c : Call) → Asks c → P (perform now c p).1.tasks
  unfolding perform
  perform_cases (start id) f = evolved _ (start_task-Evolves now p u id)
  perform_cases (wait id) f = evolved _ (wait_for_approval-Evolves now p u id)
  perform_cases (request id) f = evolved _ (request_approval-Evolves now p u id)
  perform_cases (resume id) f = evolved _ (resume_task-Evolves now p u id)
  perform_cases (approve id) f = evolved _ (approve_task-Evolves now p u id)
  perform_cases (succeed id result summary) f =
      evolved _ (succeed_task-Evolves now p u id result summary)
  perform_cases (fail id error) f = evolved _ (fail_task-Evolves now p u id error)
  perform_cases (mark_unknown id error) f =
      evolved _ (mark_unknown_outcome-Evolves now p u id error)
  perform_cases (skip id reason) f = evolved _ (skip_task-Evolves now p u id reason)
  perform_cases cancelled f = evolved _ (cancel-Evolves now p u)
  perform_cases interrupted f = evolved _ (recover_interrupted-Evolves now p u)
  perform_cases (aborted error) f = evolved _ (abort-Evolves now p u error)
  perform_cases (revised upsert remove reason actor) f = revise_cases upsert remove reason actor f
  perform_cases (recovered id add removed reason actor) f =
      recover_cases id add removed reason actor f
