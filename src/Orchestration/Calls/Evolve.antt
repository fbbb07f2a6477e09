-- ===== src/Orchestration/Calls/Evolve.antt =====
-- How each method that keeps the set of tasks changes them.
use equi_seek.Prelude.{
  String, ◌≡◌, refl, inl, inr, true, Bool-cases, Option, some, List, is_distinct, arith,
}
use equi_seek.Dict.{Dict, lookup, keys, adjust, any_value}
use equi_seek.Data.Json.{Value}
use equi_seek.Orchestration.Status.{is_running, is_unknown}
use equi_seek.Orchestration.Spec.{TaskRecord}
use equi_seek.Orchestration.Plan.{
  Plan, Clock, Result, touch, with_task_cases, require_cases, with_result_cases,
}
use equi_seek.Orchestration.Evolves.{
  Never, IsStep, Evolves, Evolves-refl, Evolves-trans, Evolves-update_all, Evolves-adjust,
}
use equi_seek.Orchestration.Refresh.{
  skip_blocked, stop_record, stop_after_unknown, refresh, ready_task_ids,
}
use equi_seek.Orchestration.Refresh.Skip.{skip_blocked-Evolves}
use equi_seek.Orchestration.Refresh.Ready.{AllSatisfied, ready_task_ids-AllSatisfied}
use equi_seek.Orchestration.Ops.{
  start_task, succeed_task, fail_task, mark_unknown_outcome, wait_for_approval, request_approval,
  resume_task, approve_task, skip_task, cancel, abort, recover_interrupted, may_retry, fail_record,
}

module _ (Ready : List String → Type 0) where
  stop_after_unknown-Evolves :
      (now : Clock) (m : Dict TaskRecord) → Evolves Ready m (stop_after_unknown now m)
  unfolding stop_after_unknown
  stop_after_unknown-Evolves now m = elim (Bool-cases (any_value (λ r. is_unknown r.status) m)) [
    | inl b ↦ rw b (
        Evolves-update_all Ready (stop_record now) m λ k r. record {
          same_spec = ground arith;
          kept = λ t. ground arith;
          started = λ t. ground arith;
        })
    | inr b ↦ rw b (Evolves-refl Ready m)
  ]

  -- a change of one task, and then of those that it blocks
  with_skips-Evolves :
      (now : Clock) (m m' : Dict TaskRecord)
      → is_distinct (keys m) ≡ true
      → Evolves Ready m m'
      → Evolves Ready m (skip_blocked now m')
  with_skips-Evolves now m m' u h =
      Evolves-trans Ready m m' _ h (skip_blocked-Evolves m' now (rw h.same_keys u))

module _ (now : Clock) (p : Plan) (u : is_distinct (keys p.tasks) ≡ true) where
  abbrev pub Ready : List String → Type 0
  Ready = AllSatisfied p.tasks

  abbrev pub Fits : {A : Type 0} → Result A × Plan → Type 0
  Fits x = Evolves Ready p.tasks x.1.tasks

  same : Evolves Ready p.tasks p.tasks
  same = Evolves-refl Ready p.tasks

  pub start_task-Evolves : (id : String) → Fits (start_task now id p)
  unfolding start_task touch
  start_task-Evolves id =
      with_task_cases Fits id _ p (λ _. same)
        λ r found. require_cases Fits _ _ _ p same λ pend.
          with_result_cases Fits (ready_task_ids p) _ p (λ _. same)
            λ ids ready. require_cases Fits _ _ _ p same λ inside.
              Evolves-adjust Ready id _ p.tasks λ s here. record {
                same_spec = refl;
                kept = λ t. ground arith;
                started = λ t. inr (ready_task_ids-AllSatisfied p ids id s u ready inside here);
              }

  -- a method that changes the status of one running task, which does not start it
  one_step :
      (id : String) (f : TaskRecord → TaskRecord)
      → ((r : TaskRecord) → lookup id p.tasks ≡ some r → IsStep Ready r (f r))
      → Evolves Ready p.tasks (adjust id f p.tasks)
  one_step id f h = Evolves-adjust Ready id f p.tasks h

  pub succeed_task-Evolves :
      (id : String) (result : Dict Value) (summary : Option String)
      → Fits (succeed_task now id result summary p)
  unfolding succeed_task refresh touch
  succeed_task-Evolves id result summary =
      with_task_cases Fits id _ p (λ _. same)
        λ r found. require_cases Fits _ _ _ p same λ run. one_step id _ λ s here. record {
          same_spec = refl;
          kept = λ t. ground arith;
          started = λ t. inl (ground arith);
        }

  pub fail_task-Evolves : (id error : String) → Fits (fail_task now id error p)
  unfolding fail_task refresh touch
  fail_task-Evolves id error =
      with_task_cases Fits id _ p (λ _. same)
        λ r found. require_cases Fits _ _ _ p same λ run. elim (Bool-cases (may_retry r)) [
          | inl b ↦ rw b (failed r found run)
          | inr b ↦ rw b (with_skips-Evolves Ready now p.tasks _ u (failed r found run))
        ]
    where
      failed :
          (r : TaskRecord)
          → lookup id p.tasks ≡ some r
          → is_running r.status ≡ true
          → Evolves Ready p.tasks (adjust id (fail_record now id error) p.tasks)
      failed r found run = one_step id _ λ s here. record {
        same_spec = refl;
        kept = λ t. ground arith;
        started = λ t. inl (ground arith);
      }

  pub mark_unknown_outcome-Evolves :
      (id error : String) → Fits (mark_unknown_outcome now id error p)
  unfolding mark_unknown_outcome refresh touch
  mark_unknown_outcome-Evolves id error =
      with_task_cases Fits id _ p (λ _. same)
        λ r found. require_cases Fits _ _ _ p same λ effect. require_cases Fits _ _ _ p same λ live.
          Evolves-trans Ready p.tasks _ _
            (with_skips-Evolves Ready now p.tasks _ u (
              one_step id _
                λ s here. record { same_spec = refl; kept = λ t. ground arith; started = λ t. cc }))
            (stop_after_unknown-Evolves Never now _)

  pub wait_for_approval-Evolves : (id : String) → Fits (wait_for_approval now id p)
  unfolding wait_for_approval touch
  wait_for_approval-Evolves id =
      with_task_cases Fits id _ p (λ _. same)
        λ r found. require_cases Fits _ _ _ p same λ run. one_step id _ λ s here. record {
          same_spec = refl;
          kept = λ t. ground arith;
          started = λ t. inl (ground arith);
        }

  pub request_approval-Evolves : (id : String) → Fits (request_approval now id p)
  unfolding request_approval touch
  request_approval-Evolves id =
      with_task_cases Fits id _ p (λ _. same)
        λ r found. require_cases Fits _ _ _ p same λ pend.
          with_result_cases Fits (ready_task_ids p) _ p (λ _. same)
            λ ids ready. require_cases Fits _ _ _ p same λ inside.
              require_cases Fits _ _ _ p same λ wanted. one_step id _ λ s here. record {
                same_spec = refl;
                kept = λ t. ground arith;
                started = λ t. inr (ready_task_ids-AllSatisfied p ids id s u ready inside here);
              }

  pub resume_task-Evolves : (id : String) → Fits (resume_task now id p)
  unfolding resume_task touch
  resume_task-Evolves id =
      with_task_cases Fits id _ p (λ _. same)
        λ r found. require_cases Fits _ _ _ p same λ waits. one_step id _ λ s here. record {
          same_spec = refl;
          kept = λ t. ground arith;
          started = λ t. inl (ground arith);
        }

  pub skip_task-Evolves : (id reason : String) → Fits (skip_task now id reason p)
  unfolding skip_task refresh touch
  skip_task-Evolves id reason =
      with_task_cases Fits id _ p (λ _. same)
        λ r found. require_cases Fits _ _ _ p same λ pend.
          one_step id _
            λ s here. record { same_spec = refl; kept = λ t. ground arith; started = λ t. cc }

  pub cancel-Evolves : Fits (cancel now p)
  unfolding cancel touch
  cancel-Evolves = Evolves-update_all Ready _ p.tasks λ k r. record {
    same_spec = ground arith;
    kept = λ t. ground arith;
    started = λ t. inl (ground arith);
  }

  pub abort-Evolves : (error : String) → Fits (abort now error p)
  unfolding abort touch
  abort-Evolves error = Evolves-update_all Ready _ p.tasks λ k r. record {
    same_spec = ground arith;
    kept = λ t. ground arith;
    started = λ t. inl (ground arith);
  }

  pub recover_interrupted-Evolves : Fits (recover_interrupted now p)
  unfolding recover_interrupted touch
  recover_interrupted-Evolves = elim (Bool-cases (any_value (λ r. is_running r.status) p.tasks)) [
    | inl b ↦ rw b (
        Evolves-trans Ready p.tasks _ _
          (with_skips-Evolves Ready now p.tasks _ u (
            Evolves-update_all Ready _ p.tasks λ k r. record {
              same_spec = ground arith;
              kept = λ t. ground arith;
              started = λ t. inl (ground arith);
            }))
          (stop_after_unknown-Evolves Never now _))
    | inr b ↦ rw b same
  ]

  pub approve_task-Evolves : (id : String) → Fits (approve_task now id p)
  unfolding approve_task resume_task touch
  approve_task-Evolves id =
      with_task_cases Fits id _ p (λ _. same)
        λ r found. require_cases Fits _ _ _ p same λ wanted.
          require_cases Fits _ _ _ p same λ waits.
            Evolves-trans Ready p.tasks (approved_tasks id) _
              (one_step id _ λ s here. record {
                same_spec = refl;
                kept = λ t. ground arith;
                started = λ t. inl t;
              })
              (with_task_cases (λ x. Evolves Never (approved_tasks id) x.1.tasks) id _
                (approved_plan id) (λ _. Evolves-refl Never _)
                λ s here.
                  require_cases (λ x. Evolves Never (approved_tasks id) x.1.tasks) _ _ _
                    (approved_plan id) (Evolves-refl Never _)
                    λ still. Evolves-adjust Never id _ _ λ t there. record {
                      same_spec = refl;
                      kept = λ e. ground arith;
                      started = λ e. cc;
                    })
    where
      approved_tasks : String → Dict TaskRecord
      approved_tasks id = adjust id (λ s. record s { approved = true }) p.tasks

      approved_plan : String → Plan
      approved_plan id = record p { tasks = adjust id (λ s. record s { approved = true }) p.tasks }
