-- ===== src/Orchestration/Refresh/Progress.antt =====
-- `ready_task_ids` of src/aegisrun/orchestration/models.py is exact, and no acyclic plan gets stuck.
use equi_seek.Prelude.{
  ℕ, zero, suc, ◌<◌, String, ◌==◌, eq_iff, ◌≡◌, refl, ◌↔◌, ◌⊎◌, inl, inr, Bool, true, false, ◌&&◌,
  if◌then◌else◌, Bool-cases, Option-cases, List, [], ◌∷◌, some, elem, is_distinct, arith, subst,
}
use equi_seek.Dict.{Dict, lookup, keys, elem-of_lookup, lookup-of_elem}
use equi_seek.Orchestration.Status.{plan_terminal, is_pending, satisfies}
use equi_seek.Orchestration.Spec.{TaskRecord}
use equi_seek.Orchestration.Plan.{Plan, ok, Result-cases}
use equi_seek.Orchestration.Dag.{deps, IsRankedBy}
use equi_seek.Orchestration.Refresh.{all_satisfied, ready_in, ready_task_ids}
use equi_seek.Orchestration.Refresh.Ready.{AllSatisfied, ready_in-keys, ready_task_ids-AllSatisfied}
use equi_seek.Orchestration.WellFormed.{IsWellFormed}

abbrev Closed : Dict TaskRecord → List String → Type 0
Closed tasks ds = (d : String) → elem d ds ≡ true → elem d (keys tasks) ≡ true

all_satisfied-total :
    (tasks : Dict TaskRecord) (ds : List String)
    → Closed tasks ds
    → (b : Bool) × (all_satisfied tasks ds ≡ ok b)
unfolding all_satisfied elem
all_satisfied-total tasks [] h = (true, refl)
all_satisfied-total tasks (d ∷ ds) h =
    let (s, found) = lookup-of_elem d tasks (h d (ground (arith, eq_iff d d))) in
    let (b, rest) = all_satisfied-total tasks ds (λ x i. h x (ground arith)) in
    (satisfies s.status && b, ground arith)

all_satisfied_complete :
    (tasks : Dict TaskRecord) (ds : List String)
    → AllSatisfied tasks ds
    → all_satisfied tasks ds ≡ ok true
unfolding all_satisfied elem
all_satisfied_complete tasks [] h = refl
all_satisfied_complete tasks (d ∷ ds) h =
    let (s, found, ready) = h d (ground (arith, eq_iff d d)) in
    ground (arith, all_satisfied_complete tasks ds (λ x i. h x (ground arith)))

-- a dependency that holds a task back
unsatisfied :
    (tasks : Dict TaskRecord) (ds : List String)
    → all_satisfied tasks ds ≡ ok false
    → (d : String) × (s : TaskRecord) × (elem d ds ≡ true)
      × (lookup d tasks ≡ some s)
      × (satisfies s.status ≡ false)
unfolding all_satisfied elem
unsatisfied tasks [] h = absurd (ground arith)
unsatisfied tasks (d ∷ ds) h = elim (Option-cases (lookup d tasks)) [
  | inl absent ↦ absurd (ground arith)
  | inr (s, found) ↦ elim (Bool-cases (satisfies s.status)) [
    | inl good ↦
        let (x, t, inside, there, bad) = unsatisfied tasks ds (ground arith) in
        (x, t, ground arith, there, bad)
    | inr bad ↦ (d, s, ground (arith, eq_iff d d), found, bad)
  ]
]

ready_in-total :
    (tasks m : Dict TaskRecord)
    → is_distinct (keys m) ≡ true
    → ((k : String) (r : TaskRecord) → lookup k m ≡ some r → Closed tasks (deps r))
    → (ids : List String) × (ready_in tasks m ≡ ok ids)
unfolding ready_in lookup keys is_distinct
ready_in-total tasks [] u h = ([], refl)
ready_in-total tasks ((k, r) ∷ m) u h =
    let (rest, q) =
      ready_in-total tasks m (ground arith)
        (λ j s found. h j s (ground (arith, eq_iff k j, elem-of_lookup j m s found))) in
    let (b, known) = all_satisfied-total tasks (deps r) (h k r (ground (arith, eq_iff k k))) in
    elim (Bool-cases (is_pending r.status)) [
      | inl pend ↦ (if b then k ∷ rest else rest, ground arith)
      | inr other ↦ (rest, ground arith)
    ]

-- a task is among the ready ones exactly if it is pending and its dependencies let it start
ready_in-exact :
    (tasks m : Dict TaskRecord) (ids : List String) (k : String) (r : TaskRecord)
    → is_distinct (keys m) ≡ true
    → ready_in tasks m ≡ ok ids
    → lookup k m ≡ some r
    → ((elem k ids ≡ true) → is_pending r.status ≡ true)
      × (is_pending r.status ≡ true → all_satisfied tasks (deps r) ≡ ok true → elem k ids ≡ true)
unfolding ready_in elem keys is_distinct lookup
ready_in-exact tasks [] ids k r u h found = absurd (ground arith)
ready_in-exact tasks ((j, s) ∷ m) ids k r u h found = elim (Result-cases (ready_in tasks m)) [
  | inr (x, q) ↦ (λ e. ground arith, λ pend good. ground (arith, eq_iff j k))
  | inl (rest, q) ↦ elim (Bool-cases (j == k)) [
    | inl same ↦ (
      λ e. ground (arith, eq_iff j k, ready_in-keys tasks m rest k q),
      λ pend good. ground (arith, eq_iff j k),
    )
    | inr other ↦
        let (one, two) = ready_in-exact tasks m rest k r (ground arith) q (ground arith) in
        (λ e. one (ground arith), λ pend good. ground (arith, two pend good))
  ]
]

module _ (p : Plan) (w : IsWellFormed p.tasks) (live : plan_terminal p.status ≡ false) where
  closed : (k : String) (r : TaskRecord) → lookup k p.tasks ≡ some r → Closed p.tasks (deps r)
  closed k r found d i = let (rank, ranked) = w.acyclic in (ranked k d r found i).0

  -- On a well-formed plan that is not over `ready_task_ids` raises nothing, and names exactly the
  -- pending tasks whose dependencies have all succeeded or been skipped.
  pub ready_task_ids_iff :
      (ids : List String) × (ready_task_ids p ≡ ok ids)
      × ((k : String) (r : TaskRecord)
          → lookup k p.tasks ≡ some r
          → (elem k ids ≡ true) ↔ ((is_pending r.status ≡ true) × AllSatisfied p.tasks (deps r)))
  unfolding ready_task_ids
  ready_task_ids_iff =
      let (ids, q) = ready_in-total p.tasks p.tasks w.distinct closed in
      (
        ids,
        rw live q,
        λ k r found.
            let (one, two) = ready_in-exact p.tasks p.tasks ids k r w.distinct q found in
            (
              λ e. (one e, ready_task_ids-AllSatisfied p ids k r w.distinct (rw live q) e found),
              λ (pend, good). two pend (all_satisfied_complete p.tasks (deps r) good),
            ),
      )

  -- From a pending task the search for a ready one goes down the ranks.
  descend :
      (rank : String → ℕ)
      → IsRankedBy rank p.tasks
      → ((k : String) (r : TaskRecord)
          → lookup k p.tasks ≡ some r
          → (is_pending r.status ≡ true) ⊎ (satisfies r.status ≡ true))
      → (fuel : ℕ) (k : String) (r : TaskRecord) → rank k < fuel
      → lookup k p.tasks ≡ some r
      → is_pending r.status ≡ true
      → (j : String) × (s : TaskRecord) × (lookup j p.tasks ≡ some s)
        × (is_pending s.status ≡ true)
        × (all_satisfied p.tasks (deps s) ≡ ok true)
  descend rank ranked calm zero k r below found pend = absurd (omega arith)
  descend rank ranked calm (suc fuel) k r below found pend =
      let (b, known) = all_satisfied-total p.tasks (deps r) (closed k r found) in
      elim (Bool-cases b) [
        | inl good ↦
            (k, r, found, pend, subst (λ x. all_satisfied p.tasks (deps r) ≡ ok x) good known)
        | inr bad ↦
            let (d, s, i, there, unmet) =
              unsatisfied p.tasks (deps r)
                (subst (λ x. all_satisfied p.tasks (deps r) ≡ ok x) bad known) in
            let waiting : is_pending s.status ≡ true = elim (calm d s there) [
              | inl w ↦ w
              | inr x ↦ absurd (ground arith)
            ] in
            descend rank ranked calm fuel d s (omega (arith, (ranked k d r found i).1)) there
              waiting
      ]

  -- A plan that is not over, in which every task is pending, succeeded or skipped, and at least one
  -- is pending, has a task that may start: its execution does not get stuck.
  pub ready_task_ids-progress :
      (k : String) (r : TaskRecord)
      → lookup k p.tasks ≡ some r
      → is_pending r.status ≡ true
      → ((j : String) (s : TaskRecord)
          → lookup j p.tasks ≡ some s
          → (is_pending s.status ≡ true) ⊎ (satisfies s.status ≡ true))
      → (ids : List String) × (j : String) × (ready_task_ids p ≡ ok ids) × (elem j ids ≡ true)
  unfolding ready_task_ids
  ready_task_ids-progress k r found pend calm =
      let (rank, ranked) = w.acyclic in
      let (j, s, there, waits, good) =
        descend rank ranked calm (suc (rank k)) k r (omega arith) found pend in
      let (ids, q) = ready_in-total p.tasks p.tasks w.distinct closed in
      let (one, two) = ready_in-exact p.tasks p.tasks ids j s w.distinct q there in
      (ids, j, rw live q, two waits good)
