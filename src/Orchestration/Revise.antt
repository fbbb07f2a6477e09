-- ===== src/Orchestration/Revise.antt =====
-- `create`, `revise` and `recover_from_failure` of src/aegisrun/orchestration/models.py.
pub mod Changes
pub mod Loops
use equi_seek.Prelude.{
  ◌+◌, String, ◌==◌, Bool, true, false, not, ◌||◌, Option, none, some, List, [], ◌∷◌, ◌++◌, map,
  length, is_distinct, if◌then◌else◌, ◌≡◌, inl, inr, Option-cases, arith, ℕ,
}
use equi_seek.Dict.{Dict, lookup, insert, erase, adjust, any_value}
use equi_seek.Data.Json.{Value}
use equi_seek.Data.Text.{strip}
use equi_seek.Orchestration.Status.{
  PlanStatus, TaskStatus, plan_terminal, is_pending, is_running, is_waiting, is_failed, is_skipped,
  is_plan_failed,
}
use equi_seek.Orchestration.Spec.{TaskSpec, TaskRecord, new_record, is_safe_id}
use equi_seek.Orchestration.Plan.{
  Plan, PlanError, Clock, of_creation, of_touch, of_revision, Revision, revised, failure_recovery,
  Result, ok, err, Method, raise, require, require_cases, with_result, touch, no_tasks,
  unsafe_plan_id, duplicate_ids, terminal_plan, no_reason, active_tasks, duplicate_revision_ids,
  remove_unknown, remove_non_pending, replace_non_pending, plan_not_failed, task_not_failed,
  side_effect_failure, nothing_to_recover, duplicate_recovery_ids, remove_non_skipped,
  recovery_exists,
}
use equi_seek.Orchestration.Dag.{validate_dag}

abbrev pub ids : List TaskSpec → List String
ids specs = map (λ s. s.id) specs

abbrev pub is_empty {ℓ} : {A : Type ℓ} → List A → Bool
is_empty [] = true
is_empty (x ∷ xs) = false

-- `{spec.id: TaskRecord(spec) for spec in specs}`
unfoldable pub new_records : List TaskSpec → Dict TaskRecord → Dict TaskRecord
new_records [] m = m
new_records (s ∷ specs) m = new_records specs (insert s.id (new_record s) m)

abbrev checked_dag : Plan → Result Plan
checked_dag p = elim (validate_dag p.tasks) [ none ↦ ok p | some e ↦ err e ]

unfoldable pub create : Clock → String → String → List TaskSpec → Dict Value → Result Plan
create now plan_id goal specs context =
    if is_empty specs
    then err no_tasks
    else if not (is_safe_id plan_id)
    then err unsafe_plan_id
    else if not (is_distinct (ids specs))
    then err duplicate_ids
    else checked_dag (record {
      id = plan_id;
      goal = goal;
      tasks = new_records specs [];
      status = PlanStatus.pending;
      version = 1;
      created_at = now of_creation;
      updated_at = now of_touch;
      context = context;
      revisions = [];
    })

-- the loop over `remove` in `revise`
unfoldable pub remove_pending : List String → Dict TaskRecord → Result (Dict TaskRecord)
remove_pending [] m = ok m
remove_pending (id ∷ rest) m = elim (lookup id m) [
  | none ↦ err (remove_unknown id)
  | some r ↦ elim (is_pending r.status) [
    | true ↦ remove_pending rest (erase id m)
    | false ↦ err (remove_non_pending id)
  ]
]

-- no task of this id, or a pending one
abbrev pub is_replaceable : Option TaskRecord → Bool
is_replaceable none = true
is_replaceable (some r) = is_pending r.status

-- the loop over `upsert` in `revise`
unfoldable pub upsert_specs : List TaskSpec → Dict TaskRecord → Result (Dict TaskRecord)
upsert_specs [] m = ok m
upsert_specs (s ∷ specs) m = elim (is_replaceable (lookup s.id m)) [
  | true ↦ upsert_specs specs (insert s.id (new_record s) m)
  | false ↦ err (replace_non_pending s.id)
]

abbrev and_then : {A B : Type 0} → Result A → (A → Result B) → Result B
and_then (ok a) f = f a
and_then (err e) f = err e

-- `candidate` of `revise`, once both loops are done
unfoldable pub revise_tasks :
    List TaskSpec → List String → Dict TaskRecord → Result (Dict TaskRecord)
unfolding remove_pending upsert_specs
revise_tasks upsert remove m = and_then (remove_pending remove m) (upsert_specs upsert)

-- `record.status in {RUNNING, WAITING_APPROVAL}`
abbrev pub is_active : TaskRecord → Bool
is_active r = is_running r.status || is_waiting r.status

abbrev add_revision : Revision → Plan → Plan
add_revision x p = record p { revisions = p.revisions ++ x ∷ []; status = PlanStatus.pending }

-- From the `try` block on: the plan with the new tasks and a new entry of `revisions`, made from its
-- number, or, where the graph is refused, with the tasks that the handler puts back.
unfoldable pub adopt :
    Clock
    → (candidate : Dict TaskRecord) (previous : Dict TaskRecord) (entry : ℕ → Revision)
    → Method (Unit {0})
adopt now candidate previous entry p =
    let q = record p { tasks = candidate } in
    elim (validate_dag candidate) [
      | none ↦ (ok tt, touch now (add_revision (entry (length q.revisions + 1)) q))
      | some e ↦ (err e, record q { tasks = previous })
    ]

-- A property of the tasks that `adopt` leaves.
pub adopt_cases {ℓ} :
    (P : Dict TaskRecord → Type ℓ) (now : Clock) (candidate previous : Dict TaskRecord)
    (entry : ℕ → Revision) (p : Plan)
    → (validate_dag candidate ≡ none → P candidate)
    → P previous
    → P (adopt now candidate previous entry p).1.tasks
unfolding adopt touch
adopt_cases P now candidate previous entry p h k = elim (Option-cases (validate_dag candidate)) [
  | inl accepted ↦ rw (accepted, adopt) (h accepted)
  | inr (e, refused) ↦ rw (refused, adopt) k
]

unfoldable pub revise :
    Clock → List TaskSpec → List String → (reason actor : String) → Method (Unit {0})
unfolding revise_tasks
revise now upsert remove reason actor p =
    require (not (plan_terminal p.status)) terminal_plan
      (require (not (strip reason == "")) no_reason (
        require (not (any_value is_active p.tasks)) active_tasks (
          require (is_distinct (ids upsert)) duplicate_revision_ids (
            with_result (revise_tasks upsert remove p.tasks) λ candidate.
              require (not (is_empty candidate)) no_tasks (
                adopt now candidate p.tasks
                  λ n. revised n (strip reason) actor (now of_revision) (ids upsert) remove)))))
      p

-- the loop over `remove_skipped` in `recover_from_failure`
unfoldable pub remove_skipped : List String → Dict TaskRecord → Result (Dict TaskRecord)
remove_skipped [] m = ok m
remove_skipped (id ∷ rest) m = elim (lookup id m) [
  | none ↦ err (remove_non_skipped id)
  | some r ↦ elim (is_skipped r.status) [
    | true ↦ remove_skipped rest (erase id m)
    | false ↦ err (remove_non_skipped id)
  ]
]

-- the loop over `add` in `recover_from_failure`
unfoldable pub add_specs : List TaskSpec → Dict TaskRecord → Result (Dict TaskRecord)
add_specs [] m = ok m
add_specs (s ∷ specs) m = elim (lookup s.id m) [
  | some r ↦ err (recovery_exists s.id)
  | none ↦ add_specs specs (insert s.id (new_record s) m)
]

unfoldable pub recovery_tasks :
    List TaskSpec → List String → Dict TaskRecord → Result (Dict TaskRecord)
unfolding remove_skipped add_specs
recovery_tasks add removed m = and_then (remove_skipped removed m) (add_specs add)

abbrev pub supersede : TaskRecord → TaskRecord
supersede r = record r {
  status = TaskStatus.superseded;
  summary = some "superseded by an audited recovery branch";
}

-- the handler of `recover_from_failure`, for the object `failed` as it was
abbrev pub restore : TaskRecord → TaskRecord → TaskRecord
restore before r = record r { status = before.status; summary = before.summary }

-- `failed`, looked up
unfoldable pub with_failed : String → (TaskRecord → Method (Unit {0})) → Method (Unit {0})
with_failed id f p = elim (lookup id p.tasks) [
  | none ↦ raise task_not_failed p
  | some r ↦ require (is_failed r.status) task_not_failed (f r) p
]

pub with_failed_cases {ℓ} :
    (P : Result (Unit {0}) × Plan → Type ℓ) (id : String) (f : TaskRecord → Method (Unit {0}))
    (p : Plan)
    → ((e : PlanError) → P (err e, p))
    → ((r : TaskRecord) → lookup id p.tasks ≡ some r → r.status ≡ TaskStatus.failed → P (f r p))
    → P (with_failed id f p)
unfolding with_failed
with_failed_cases P id f p h k = elim (Option-cases (lookup id p.tasks)) [
  | inl absent ↦ rw (absent, with_failed) (h task_not_failed)
  | inr (r, found) ↦
      rw (found, with_failed)
        (require_cases P _ _ (f r) p (h task_not_failed) (λ b. k r found (ground arith)))
]

-- The object `failed` is in `self.tasks` and in `candidate`: a write to it shows in both.
unfoldable pub recover_from_failure :
    Clock → String → List TaskSpec → List String → (reason actor : String) → Method (Unit {0})
unfolding recovery_tasks
recover_from_failure now failed_id add removed reason actor p =
    require (is_plan_failed p.status) plan_not_failed
      (with_failed failed_id λ failed. require (not failed.spec.side_effect) side_effect_failure (
        require (not (strip reason == "" || is_empty add)) nothing_to_recover (
          require (is_distinct (ids add)) duplicate_recovery_ids (
            with_result (recovery_tasks add removed p.tasks) λ candidate.
              adopt now (adjust failed_id supersede candidate)
                (adjust failed_id (restore failed) (adjust failed_id supersede p.tasks))
                λ n.
                  failure_recovery n (strip reason) actor (now of_revision) failed_id (ids add)
                    removed))))
      p
