-- ===== src/Orchestration/Refresh/Ready.antt =====
-- `ready_task_ids` of src/aegisrun/orchestration/models.py names tasks that may start.
use equi_seek.Prelude.{
  String, ◌==◌, eq_iff, ◌≡◌, inl, inr, true, Bool-cases, Option-cases, List, [], ◌∷◌, some, elem,
  is_distinct, arith,
}
use equi_seek.Dict.{Dict, lookup, keys}
use equi_seek.Orchestration.Status.{plan_terminal, satisfies}
use equi_seek.Orchestration.Spec.{TaskRecord}
use equi_seek.Orchestration.Plan.{Plan, ok, Result-cases}
use equi_seek.Orchestration.Dag.{deps}
use equi_seek.Orchestration.Refresh.{all_satisfied, ready_in, ready_task_ids}

-- Each dependency is a task that has succeeded or has been skipped.
abbrev pub AllSatisfied : Dict TaskRecord → List String → Type 0
AllSatisfied tasks ds =
    (d : String)
    → elem d ds ≡ true
    → (s : TaskRecord) × (lookup d tasks ≡ some s) × (satisfies s.status ≡ true)

all_satisfied-AllSatisfied :
    (tasks : Dict TaskRecord) (ds : List String)
    → all_satisfied tasks ds ≡ ok true
    → AllSatisfied tasks ds
unfolding all_satisfied elem
all_satisfied-AllSatisfied tasks [] h d m = cc
all_satisfied-AllSatisfied tasks (x ∷ ds) h d m = elim (Option-cases (lookup x tasks)) [
  | inl absent ↦ absurd (ground arith)
  | inr (s, found) ↦ elim (Bool-cases (x == d)) [
    | inl same ↦ (s, ground (arith, eq_iff x d), ground arith)
    | inr other ↦ all_satisfied-AllSatisfied tasks ds (ground arith) d (ground arith)
  ]
]

pub ready_in-keys :
    (tasks m : Dict TaskRecord) (ids : List String) (k : String)
    → ready_in tasks m ≡ ok ids
    → elem k ids ≡ true
    → elem k (keys m) ≡ true
unfolding ready_in elem keys
ready_in-keys tasks [] ids k h e = cc
ready_in-keys tasks ((j, r) ∷ m) ids k h e = elim (Result-cases (ready_in tasks m)) [
  | inl (rest, q) ↦ ground (arith, ready_in-keys tasks m rest k q)
  | inr (x, q) ↦ ground arith
]

ready_in-satisfied :
    (tasks m : Dict TaskRecord) (ids : List String) (k : String) (r : TaskRecord)
    → is_distinct (keys m) ≡ true
    → ready_in tasks m ≡ ok ids
    → elem k ids ≡ true
    → lookup k m ≡ some r
    → all_satisfied tasks (deps r) ≡ ok true
unfolding ready_in elem keys is_distinct lookup
ready_in-satisfied tasks [] ids k r u h e found = cc
ready_in-satisfied tasks ((j, s) ∷ m) ids k r u h e found = elim (Result-cases (ready_in tasks m)) [
  | inl (rest, q) ↦ ground (
    arith,
    eq_iff j k,
    ready_in-keys tasks m rest k q,
    ready_in-satisfied tasks m rest k r (ground arith) q,
  )
  | inr (x, q) ↦ ground arith
]

-- A task that `ready_task_ids` names has only dependencies that succeeded or were skipped.
pub ready_task_ids-AllSatisfied :
    (p : Plan) (ids : List String) (k : String) (r : TaskRecord)
    → is_distinct (keys p.tasks) ≡ true
    → ready_task_ids p ≡ ok ids
    → elem k ids ≡ true
    → lookup k p.tasks ≡ some r
    → AllSatisfied p.tasks (deps r)
unfolding ready_task_ids elem
ready_task_ids-AllSatisfied p ids k r u h e found =
    all_satisfied-AllSatisfied p.tasks (deps r) (elim (Bool-cases (plan_terminal p.status)) [
      | inl over ↦ absurd (ground arith)
      | inr live ↦ ready_in-satisfied p.tasks p.tasks ids k r u (ground arith) e found
    ])
