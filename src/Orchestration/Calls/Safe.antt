-- ===== src/Orchestration/Calls/Safe.antt =====
-- The invariant of the plans that the methods of `ExecutionPlan` build.
use equi_seek.Prelude.{
  String, ◌≡◌, refl, inl, inr, true, false, Option-cases, none, List, elem, is_distinct, arith, [],
}
use equi_seek.Dict.{Dict, lookup, keys}
use equi_seek.Data.Json.{Value}
use equi_seek.Orchestration.Spec.{TaskSpec}
use equi_seek.Orchestration.Plan.{Plan, Clock, ok}
use equi_seek.Orchestration.Dag.{validate_dag}
use equi_seek.Orchestration.Dag.Sound.{validate_dag-IsAcyclic}
use equi_seek.Orchestration.Revise.{ids, create, new_records}
use equi_seek.Orchestration.Revise.Loops.{new_records-Changes}
use equi_seek.Orchestration.WellFormed.{
  IsWellFormed, Evolves-IsWellFormed, revised-IsWellFormed, recovered-IsWellFormed,
}
use equi_seek.Orchestration.Calls.{Call, revised, recovered, perform}
use equi_seek.Orchestration.Calls.Cases.{Asks, perform_cases}

-- A recovery does not give a removed task's id to a new task. The method allows it, and a task that
-- succeeded after the skip may then depend on a task that is pending again.
abbrev pub IsFresh : Call → Type 0
IsFresh (recovered id add removed reason actor) =
    (k : String) → elem k removed ≡ true → elem k (ids add) ≡ false
IsFresh _ = Unit {0}

new_plan-IsWellFormed :
    (specs : List TaskSpec)
    → validate_dag (new_records specs []) ≡ none
    → IsWellFormed (new_records specs [])
unfolding is_distinct keys lookup
new_plan-IsWellFormed specs accepted =
    let h = new_records-Changes specs (ids specs) [] (λ k e. e) in
    record {
      distinct = h.distinct refl;
      named = λ k r e. elim (h.back k r e) [
        | inl before ↦ absurd (ground arith)
        | inr (s, new, name, _) ↦ ground arith
      ];
      acyclic = validate_dag-IsAcyclic (new_records specs []) accepted;
      ordered = λ k r e started. elim (h.back k r e) [
        | inl before ↦ absurd (ground arith)
        | inr (s, new, name, _) ↦ absurd (ground arith)
      ];
    }

-- A plan that `create` returns is well formed.
pub create-IsWellFormed :
    (now : Clock) (plan_id goal : String) (specs : List TaskSpec) (context : Dict Value) (p : Plan)
    → create now plan_id goal specs context ≡ ok p
    → IsWellFormed p.tasks
unfolding create
create-IsWellFormed now plan_id goal specs context p h =
    elim (Option-cases (validate_dag (new_records specs []))) [
      | inl accepted ↦
          let same : p.tasks ≡ new_records specs [] = ground arith in
          rw same (new_plan-IsWellFormed specs accepted)
      | inr (e, refused) ↦ absurd (ground arith)
    ]

-- Every call keeps a plan well formed, also one that raises: keys are the tasks' ids, the dependency
-- graph is closed and acyclic, and a started task has only satisfied dependencies. Of a recovery it
-- is asked that it gives no removed task's id to a new one.
pub perform-IsWellFormed :
    (now : Clock) (c : Call) (p : Plan)
    → IsFresh c
    → IsWellFormed p.tasks
    → IsWellFormed (perform now c p).1.tasks
perform-IsWellFormed now c p f w =
    perform_cases IsWellFormed now p w.distinct (λ m h. Evolves-IsWellFormed p.tasks m w h) c
      (asked c f)
  where
    asked :
        (c : Call)
        → IsFresh c
        → Asks IsWellFormed now p w.distinct (λ m h. Evolves-IsWellFormed p.tasks m w h) c
    asked (revised upsert remove reason actor) f =
        λ m h a. revised-IsWellFormed p.tasks m upsert w h a
    asked (recovered id add removed reason actor) f = λ failed m found bad h gone a.
        recovered-IsWellFormed p.tasks m add removed id failed w h gone f found bad a
    asked _ f = tt

-- The plans that clients can build by `create`, and then by calls of which no recovery gives a
-- removed task's id to a new task.
pub data Reachable : Plan → Type 0 where
  created :
      {p : Plan} (now : Clock) (plan_id goal : String) (specs : List TaskSpec)
      (context : Dict Value)
      → create now plan_id goal specs context ≡ ok p
      → Reachable p
  called :
      {p q : Plan} (now : Clock) (c : Call)
      → Reachable p
      → IsFresh c
      → q ≡ (perform now c p).1
      → Reachable q

-- A plan that is built by `create` and a sequence of calls, raising ones included, of which no recovery
-- adds a task under an id that it removes, is well formed: its graph is closed and acyclic, its keys are
-- distinct and the ids of the tasks, and no task has started before its dependencies were satisfied.
pub Reachable-IsWellFormed : {p : Plan} → Reachable p → IsWellFormed p.tasks
Reachable-IsWellFormed {p} (created now plan_id goal specs context h) =
    create-IsWellFormed now plan_id goal specs context p h
Reachable-IsWellFormed (called {p} {q} now c before f e) =
    rw e (perform-IsWellFormed now c p f (Reachable-IsWellFormed before))
