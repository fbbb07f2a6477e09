-- ===== src/Orchestration/Calls/Built.antt =====
-- What holds of every plan that the methods of `ExecutionPlan` build, whatever is recovered.
use equi_seek.Prelude.{
  String, ◌==◌, ◌≡◌, ◌∙◌, inl, inr, true, Bool-cases, Option-cases, some, List, elem, is_distinct,
  arith, ap, subst,
}
use equi_seek.Dict.{
  Dict, lookup, keys, lookup-of_elem, elem-of_lookup, adjust, lookup-adjust, keys-adjust,
}
use equi_seek.Data.Json.{Value}
use equi_seek.Orchestration.Spec.{TaskSpec, TaskRecord}
use equi_seek.Orchestration.Plan.{Plan, Clock, ok}
use equi_seek.Orchestration.Dag.{deps, IsAcyclic}
use equi_seek.Orchestration.Evolves.{IsStep, Evolves}
use equi_seek.Orchestration.Refresh.Ready.{AllSatisfied}
use equi_seek.Orchestration.Revise.{ids, create, supersede}
use equi_seek.Orchestration.Revise.Changes.{Changes}
use equi_seek.Orchestration.Calls.{Call, revised, recovered, perform}
use equi_seek.Orchestration.Calls.Cases.{Asks, perform_cases}
use equi_seek.Orchestration.Calls.Safe.{create-IsWellFormed}

-- The keys are distinct and the ids of the tasks, and the dependency graph is closed and acyclic.
pub record IsPlanned (m : Dict TaskRecord) : Type 0 where
  pub distinct : is_distinct (keys m) ≡ true
  pub named : (k : String) (r : TaskRecord) → lookup k m ≡ some r → r.spec.id ≡ k
  pub acyclic : IsAcyclic m

module _ (Ready : List String → Type 0) (m m' : Dict TaskRecord) (h : Evolves Ready m m') where
  same_task :
      (k : String) (r' : TaskRecord)
      → lookup k m' ≡ some r'
      → (r : TaskRecord) × (lookup k m ≡ some r) × (r'.spec ≡ r.spec)
  same_task k r' e =
      let (r, found) =
        lookup-of_elem k m (subst (λ l. elem k l ≡ true) h.same_keys (elem-of_lookup k m' r' e)) in
      let (r'', e'', step) = h.each k r found in
      let same : r'' ≡ r' = ground arith in (r, found, (subst (IsStep Ready r) same step).same_spec)

  evolved-IsPlanned : IsPlanned m → IsPlanned m'
  evolved-IsPlanned w = record {
    distinct = rw h.same_keys w.distinct;
    named = λ k r' e.
        let (r, found, same) = same_task k r' e in
        ap (λ (s : TaskSpec). s.id) same ∙ w.named k r found;
    acyclic =
        let (rank, ranked) = w.acyclic in
        (
          rank,
          λ x d r' e dep.
              let (r, found, same) = same_task x r' e in
              let before : elem d (deps r) ≡ true =
                subst (λ (s : TaskSpec). elem d s.depends_on ≡ true) same dep in
              let (inside, below) = ranked x d r found before in (rw h.same_keys inside, below),
        );
  }

module _ (Locked : String → TaskRecord → Type 0) (m m' : Dict TaskRecord) (specs : List String)
    (w : IsPlanned m) (h : Changes Locked specs m m') where
  changed_named : (k : String) (r : TaskRecord) → lookup k m' ≡ some r → r.spec.id ≡ k
  changed_named k r e = elim (h.back k r e) [
    | inl before ↦ w.named k r before
    | inr (s, new, name, _) ↦ ground arith
  ]

  superseded_named :
      (id k : String) (r : TaskRecord) → lookup k (adjust id supersede m') ≡ some r → r.spec.id ≡ k
  superseded_named id k r e = elim (Bool-cases (id == k)) [
    | inr other ↦ changed_named k r (ground (arith, lookup-adjust id k supersede m'))
    | inl same ↦ elim (Option-cases (lookup k m')) [
      | inl absent ↦ absurd (ground (arith, lookup-adjust id k supersede m'))
      | inr (t, there) ↦
          let now : r ≡ supersede t = ground (arith, lookup-adjust id k supersede m') in
          ap (λ (x : TaskRecord). x.spec.id) now ∙ changed_named k t there
    ]
  ]

pub perform-IsPlanned :
    (now : Clock) (c : Call) (p : Plan) → IsPlanned p.tasks → IsPlanned (perform now c p).1.tasks
perform-IsPlanned now c p w = perform_cases IsPlanned now p w.distinct evolves c (asked c)
  where
    evolves : (m : Dict TaskRecord) → Evolves (AllSatisfied p.tasks) p.tasks m → IsPlanned m
    evolves m h = evolved-IsPlanned (AllSatisfied p.tasks) p.tasks m h w

    asked : (c : Call) → Asks IsPlanned now p w.distinct evolves c
    asked (revised upsert remove reason actor) = λ m h a. record {
      distinct = h.distinct w.distinct;
      named = changed_named _ p.tasks m (ids upsert) w h;
      acyclic = a;
    }
    asked (recovered id add removed reason actor) = λ failed m found bad h gone a. record {
      distinct = rw keys-adjust (h.distinct w.distinct);
      named = superseded_named _ p.tasks m (ids add) w h id;
      acyclic = a;
    }
    asked _ = tt

-- The plans that clients can build, by `create` and then by any calls.
pub data Built : Plan → Type 0 where
  made :
      {p : Plan} (now : Clock) (plan_id goal : String) (specs : List TaskSpec)
      (context : Dict Value)
      → create now plan_id goal specs context ≡ ok p
      → Built p
  then_called : {p q : Plan} (now : Clock) (c : Call) → Built p → q ≡ (perform now c p).1 → Built q

-- Every plan that is built by `create` and any sequence of calls, raising ones and recoveries of every
-- kind included, has distinct keys, which are the ids of its tasks, and a closed and acyclic graph.
pub Built-IsPlanned : {p : Plan} → Built p → IsPlanned p.tasks
Built-IsPlanned {p} (made now plan_id goal specs context h) =
    let w = create-IsWellFormed now plan_id goal specs context p h in
    record { distinct = w.distinct; named = w.named; acyclic = w.acyclic }
Built-IsPlanned (then_called {p} {q} now c before e) =
    rw e (perform-IsPlanned now c p (Built-IsPlanned before))
