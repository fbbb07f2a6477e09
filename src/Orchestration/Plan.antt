-- ===== src/Orchestration/Plan.antt =====
-- `ExecutionPlan` of src/aegisrun/orchestration/models.py: its state, its errors and its clock.
use equi_seek.Prelude.{
  ℕ, ◌+◌, String, List, Bool, true, false, none, some, ◌≡◌, ◌⊎◌, refl, inl, inr, Option-cases,
}
use equi_seek.Dict.{Dict, lookup, adjust}
use equi_seek.Data.Json.{Value}
use equi_seek.Orchestration.Status.{PlanStatus}
use equi_seek.Orchestration.Spec.{TaskRecord}

-- an entry of `revisions`: what `revise` appends, and what `recover_from_failure` appends
pub data Revision : Type 0 where
  revised :
      (revision : ℕ) (reason actor created_at : String) (upserted removed : List String) → Revision
  failure_recovery :
      (revision : ℕ) (reason actor created_at superseded : String) (added removed : List String)
      → Revision

pub record Plan : Type 0 where
  pub id : String
  pub goal : String
  pub tasks : Dict TaskRecord
  pub status : PlanStatus
  pub version : ℕ
  pub created_at : String
  pub updated_at : String
  pub context : Dict Value
  pub revisions : List Revision

-- The exceptions, one for each `raise`, with the task id that its message names.
-- `key_error` is the KeyError of `self.tasks[task_id]`.
pub data PlanError : Type 0 where
  key_error : String → PlanError
  no_tasks unsafe_plan_id duplicate_ids : PlanError
  missing_dependencies : String → PlanError
  cycle : PlanError
  terminal_plan no_reason active_tasks duplicate_revision_ids : PlanError
  remove_unknown remove_non_pending replace_non_pending : String → PlanError
  plan_not_failed task_not_failed side_effect_failure nothing_to_recover duplicate_recovery_ids :
      PlanError
  remove_non_skipped recovery_exists : String → PlanError
  not_pending not_ready not_running not_side_effect already_terminal : String → PlanError
  no_approval_required not_waiting : String → PlanError

-- One operation reads the time at most once for each task, once for a new entry of `revisions`
-- and once in `_touch`: a reading is named by what it is for.
pub data Reading : Type 0 where
  of_task : String → Reading
  of_revision of_creation of_touch : Reading

-- `_now()` during one operation
abbrev pub Clock : Type 0
Clock = Reading → String

-- A method returns its result or its exception, and the plan that it leaves behind.
pub data Result {ℓ} (A : Type ℓ) : Type ℓ where
  ok : A → Result A
  err : PlanError → Result A

abbrev pub Method : Type 0 → Type 0
Method A = Plan → Result A × Plan

abbrev pub raise : {A : Type 0} → PlanError → Method A
raise e p = (err e, p)

-- `_touch`
unfoldable pub touch : Clock → Plan → Plan
touch now p = record p { version = p.version + 1; updated_at = now of_touch }

-- `raise`, where the condition fails
unfoldable pub require : {A : Type 0} → Bool → PlanError → Method A → Method A
require true e m p = m p
require false e m p = raise e p

-- `self.tasks[task_id]`
unfoldable pub with_task : {A : Type 0} → String → (TaskRecord → Method A) → Method A
with_task id f p = elim (lookup id p.tasks) [ none ↦ raise (key_error id) p | some r ↦ f r p ]

-- a call whose exception is passed on
unfoldable pub with_result : {A B : Type 0} → Result A → (A → Method B) → Method B
with_result (ok a) f p = f a p
with_result (err e) f p = raise e p

abbrev pub set_task : String → (TaskRecord → TaskRecord) → Plan → Plan
set_task id f p = record p { tasks = adjust id f p.tasks }

-- What holds of every way in which such a chain of guards can end.
module _ {ℓ} {A : Type 0} (P : Result A × Plan → Type ℓ) where
  pub with_task_cases :
      (id : String) (f : TaskRecord → Method A) (p : Plan)
      → ((e : PlanError) → P (err e, p))
      → ((r : TaskRecord) → lookup id p.tasks ≡ some r → P (f r p))
      → P (with_task id f p)
  unfolding with_task
  with_task_cases id f p h k = elim (Option-cases (lookup id p.tasks)) [
    | inl absent ↦ rw (absent, with_task) (h (key_error id))
    | inr (r, found) ↦ rw (found, with_task) (k r found)
  ]

  pub require_cases :
      (b : Bool) (e : PlanError) (m : Method A) (p : Plan)
      → P (err e, p)
      → (b ≡ true → P (m p))
      → P (require b e m p)
  unfolding require
  require_cases true e m p h k = k refl
  require_cases false e m p h k = h

pub with_result_cases {ℓ} :
    {A B : Type 0} (P : Result B × Plan → Type ℓ) (x : Result A) (f : A → Method B) (p : Plan)
    → ((e : PlanError) → P (err e, p))
    → ((a : A) → x ≡ ok a → P (f a p))
    → P (with_result x f p)
unfolding with_result
with_result_cases P (ok a) f p h k = k a refl
with_result_cases P (err e) f p h k = h e

pub Result-cases {ℓ} :
    {A : Type ℓ} (x : Result A) → ((a : A) × (x ≡ ok a)) ⊎ ((e : PlanError) × (x ≡ err e))
Result-cases (ok a) = inl (a, refl)
Result-cases (err e) = inr (e, refl)
