-- ===== src/Orchestration/Dag.antt =====
-- `ExecutionPlan._validate_dag` of src/aegisrun/orchestration/models.py: a depth-first search.
pub mod Fuel
pub mod Sound
pub mod Complete
use equi_seek.Prelude.{
  ℕ, zero, suc, ◌<◌, String, List, [], ◌∷◌, Option, none, some, true, false, not, length, any, elem,
  if◌then◌else◌, ◌≡◌, inl, inr, Bool-cases, Option-cases,
}
use equi_seek.Dict.{Dict, lookup, keys}
use equi_seek.Orchestration.Spec.{TaskRecord}
use equi_seek.Orchestration.Plan.{PlanError, key_error, missing_dependencies, cycle}

abbrev pub deps : TaskRecord → List String
deps r = r.spec.depends_on

-- the first loop: the first record with `set(record.spec.depends_on) - task_ids`
unfoldable pub find_missing : List String → Dict TaskRecord → Option PlanError
find_missing task_ids [] = none
find_missing task_ids ((k, r) ∷ m) =
    if any (λ d. not (elem d task_ids)) (deps r)
    then some (missing_dependencies r.spec.id)
    else find_missing task_ids m

-- How a call of `visit` ends: the new `visited`, an exception, or (in the model alone) no fuel.
pub data Visit : Type 0 where
  done : (visited : List String) → Visit
  raised : PlanError → Visit
  out_of_fuel : Visit

abbrev pub and_then : Visit → (List String → Visit) → Visit
and_then (done vs) f = f vs
and_then (raised e) f = raised e
and_then out_of_fuel f = out_of_fuel

-- `for dependency in depends_on: visit(dependency)`
unfoldable pub visit_each : (List String → String → Visit) → List String → List String → Visit
visit_each g visited [] = done visited
visit_each g visited (d ∷ ds) = and_then (g visited d) (λ vs. visit_each g vs ds)

-- The body of `visit(task_id)`, with `recur` for the calls in its loop. A call that returns has
-- removed from `visiting` what it added, so `visiting` is an argument, and `visited` is returned.
unfoldable pub visit_step :
    (recur : List String → String → Visit) (tasks : Dict TaskRecord)
    (visiting visited : List String) (task_id : String)
    → Visit
visit_step recur tasks visiting visited task_id =
    if elem task_id visiting
    then raised cycle
    else if elem task_id visited
    then done visited
    else elim (lookup task_id tasks) [
      | none ↦ raised (key_error task_id)
      | some r ↦ and_then (visit_each recur visited (deps r)) (λ vs. done (task_id ∷ vs))
    ]

unfoldable pub visit :
    (fuel : ℕ) (tasks : Dict TaskRecord) (visiting visited : List String) (task_id : String) → Visit
visit zero tasks visiting visited task_id = out_of_fuel
visit (suc fuel) tasks visiting visited task_id =
    visit_step (visit fuel tasks (task_id ∷ visiting)) tasks visiting visited task_id

-- A property of the outcome of `visit_step`, from its four cases.
pub visit_step_cases {ℓ} :
    (P : Visit → Type ℓ) (recur : List String → String → Visit) (tasks : Dict TaskRecord)
    (visiting visited : List String) (x : String)
    → (elem x visiting ≡ true → P (raised cycle))
    → (elem x visited ≡ true → P (done visited))
    → (lookup x tasks ≡ none → P (raised (key_error x)))
    → ((r : TaskRecord)
        → elem x visiting ≡ false
        → elem x visited ≡ false
        → lookup x tasks ≡ some r
        → P (and_then (visit_each recur visited (deps r)) (λ vs. done (x ∷ vs))))
    → P (visit_step recur tasks visiting visited x)
unfolding visit_step
visit_step_cases P recur tasks visiting visited x looped seen absent fresh =
    elim (Bool-cases (elem x visiting)) [
      | inl a ↦ rw a (looped a)
      | inr a ↦ rw a (elim (Bool-cases (elem x visited)) [
        | inl b ↦ rw b (seen b)
        | inr b ↦ rw b (elim (Option-cases (lookup x tasks)) [
          | inl c ↦ rw c (absent c)
          | inr (r, c) ↦ rw c (fresh r a b c)
        ])
      ])
    ]

-- The second loop, with the fuel that `Dag.Fuel` proves to be enough.
unfoldable pub visit_all : Dict TaskRecord → Visit
visit_all tasks = visit_each (visit (suc (length (keys tasks))) tasks []) [] (keys tasks)

abbrev raised_by : Visit → Option PlanError
raised_by (raised e) = some e
raised_by _ = none

-- the exception that `_validate_dag` raises, if any
unfoldable pub validate_dag : Dict TaskRecord → Option PlanError
validate_dag tasks = elim (find_missing (keys tasks) tasks) [
  | some e ↦ some e
  | none ↦ raised_by (visit_all tasks)
]

-- `rank` puts each dependency of a task below the task, and the dependency is a task of the plan.
abbrev pub IsRankedBy : (String → ℕ) → Dict TaskRecord → Type 0
IsRankedBy rank tasks =
    (x d : String) (r : TaskRecord)
    → lookup x tasks ≡ some r
    → elem d (deps r) ≡ true
    → (elem d (keys tasks) ≡ true) × (rank d < rank x)

-- The dependency graph is closed and has no cycle.
abbrev pub IsAcyclic : Dict TaskRecord → Type 0
IsAcyclic tasks = (rank : String → ℕ) × IsRankedBy rank tasks
