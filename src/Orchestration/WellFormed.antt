-- ===== src/Orchestration/WellFormed.antt =====
-- The invariant of the tasks of an execution plan, and its preservation by each kind of change.
use equi_seek.Prelude.{
  String, ◌==◌, eq_iff, ◌≡◌, refl, sym, ◌∙◌, inl, inr, true, false, ◌⊎◌, Bool-cases, none, some,
  List, elem, is_distinct, arith, ap, subst,
}
use equi_seek.Dict.{
  Dict, lookup, keys, lookup-of_elem, elem-of_lookup, adjust, lookup-adjust, keys-adjust,
}
use equi_seek.Orchestration.Status.{TaskStatus, satisfies}
use equi_seek.Orchestration.Spec.{TaskRecord, TaskSpec}
use equi_seek.Orchestration.Dag.{deps, IsAcyclic}
use equi_seek.Orchestration.Evolves.{has_started, IsStep, Evolves}
use equi_seek.Orchestration.Refresh.Ready.{AllSatisfied}
use equi_seek.Orchestration.Revise.{ids, supersede}
use equi_seek.Orchestration.Revise.Changes.{Changes, NotPending}
use equi_seek.Orchestration.Revise.Loops.{NotSkipped}

-- A task that has started has only dependencies that succeeded or were skipped.
abbrev pub IsOrdered : Dict TaskRecord → Type 0
IsOrdered m =
    (k : String) (r : TaskRecord)
    → lookup k m ≡ some r
    → has_started r.status ≡ true
    → AllSatisfied m (deps r)

pub record IsWellFormed (m : Dict TaskRecord) : Type 0 where
  pub distinct : is_distinct (keys m) ≡ true
  pub named : (k : String) (r : TaskRecord) → lookup k m ≡ some r → r.spec.id ≡ k
  pub acyclic : IsAcyclic m
  pub ordered : IsOrdered m

module _ (m m' : Dict TaskRecord) (w : IsWellFormed m) (h : Evolves (AllSatisfied m) m m') where
  -- the record before, of a record after
  origin :
      (k : String) (r' : TaskRecord)
      → lookup k m' ≡ some r'
      → (r : TaskRecord) × (lookup k m ≡ some r) × IsStep (AllSatisfied m) r r'
  origin k r' e =
      let (r, found) =
        lookup-of_elem k m (subst (λ l. elem k l ≡ true) h.same_keys (elem-of_lookup k m' r' e)) in
      let (r'', e'', step) = h.each k r found in
      let same : r'' ≡ r' = ground arith in (r, found, subst (IsStep (AllSatisfied m) r) same step)

  still_satisfied : (ds : List String) → AllSatisfied m ds → AllSatisfied m' ds
  still_satisfied ds a d i =
      let (s, found, ready) = a d i in
      let (s', found', step) = h.each d s found in (s', found', rw (step.kept (ground arith)) ready)

  Evolves-IsOrdered : IsOrdered m'
  Evolves-IsOrdered k r' e started =
      let (r, found, step) = origin k r' e in
      let ready : AllSatisfied m (deps r) = elim (step.started started) [
        | inl before ↦ w.ordered k r found before
        | inr now ↦ now
      ] in
      subst (λ (s : TaskSpec). AllSatisfied m' s.depends_on) (sym step.same_spec)
        (still_satisfied (deps r) ready)

  pub Evolves-IsWellFormed : IsWellFormed m'
  Evolves-IsWellFormed = record {
    distinct = rw h.same_keys w.distinct;
    named = λ k r' e.
        let (r, found, step) = origin k r' e in
        ap (λ (s : TaskSpec). s.id) step.same_spec ∙ w.named k r found;
    acyclic =
        let (rank, ranked) = w.acyclic in
        (
          rank,
          λ x d r' e dep.
              let (r, found, step) = origin x r' e in
              let before : elem d (deps r) ≡ true =
                subst (λ (s : TaskSpec). elem d s.depends_on ≡ true) step.same_spec dep in
              let (inside, below) = ranked x d r found before in (rw h.same_keys inside, below),
        );
    ordered = Evolves-IsOrdered;
  }

module _ (m m' : Dict TaskRecord) (xs : List TaskSpec) (w : IsWellFormed m)
    (h : Changes NotPending (ids xs) m m') (acyclic : IsAcyclic m') where
  pub revised-IsWellFormed : IsWellFormed m'
  revised-IsWellFormed = record {
    distinct = h.distinct w.distinct;
    named = λ k r e. elim (h.back k r e) [
      | inl before ↦ w.named k r before
      | inr (s, new, name, _) ↦ ground arith
    ];
    acyclic = acyclic;
    ordered = λ k r e started d dep. elim (h.back k r e) [
      | inl before ↦
          let (s, found, ready) = w.ordered k r before started d dep in
          (s, h.kept d s found (ground arith), ready)
      | inr (s, new, name, _) ↦ absurd (ground arith)
    ];
  }

module _ (m m' : Dict TaskRecord) (xs : List TaskSpec) (removed : List String) (id : String)
    (failed : TaskRecord) (w : IsWellFormed m) (h : Changes (NotSkipped removed) (ids xs) m m')
    (gone : (k : String) → elem k removed ≡ true → elem k (ids xs) ≡ false → lookup k m' ≡ none)
    (fresh : (k : String) → elem k removed ≡ true → elem k (ids xs) ≡ false)
    (found_failed : lookup id m ≡ some failed) (has_failed : failed.status ≡ TaskStatus.failed)
    (acyclic : IsAcyclic (adjust id supersede m')) where
  after : Dict TaskRecord
  after = adjust id supersede m'

  failed_kept : lookup id m' ≡ some failed
  failed_kept = h.kept id failed found_failed (λ s _. ground arith)

  -- what stands in the new plan is the failed task, superseded, or stands among the candidates
  after_cases :
      (k : String) (r : TaskRecord)
      → lookup k after ≡ some r
      → ((id ≡ k) × (r ≡ supersede failed)) ⊎ (((id == k) ≡ false) × (lookup k m' ≡ some r))
  unfolding after
  after_cases k r e = elim (Bool-cases (id == k)) [
    | inl same ↦ inl (
      (eq_iff id k).0 same,
      ground (arith, lookup-adjust id k supersede m', failed_kept, eq_iff id k),
    )
    | inr other ↦ inr (other, ground (arith, lookup-adjust id k supersede m'))
  ]

  old_task :
      (k : String) (r : TaskRecord)
      → lookup k after ≡ some r
      → has_started r.status ≡ true
      → (s : TaskRecord) × (lookup k m ≡ some s) × (has_started s.status ≡ true) × (deps s ≡ deps r)
  old_task k r e started = elim (after_cases k r e) [
    | inl (same, now) ↦ (failed, rw (← same) found_failed, ground arith, ground arith)
    | inr (_, there) ↦ elim (h.back k r there) [
      | inl before ↦ (r, before, started, refl)
      | inr (s, new, _, _) ↦ absurd (ground arith)
    ]
  ]

  kept_satisfied :
      (d : String) (s : TaskRecord)
      → lookup d m ≡ some s
      → satisfies s.status ≡ true
      → elem d (keys after) ≡ true
      → lookup d after ≡ some s
  unfolding after
  kept_satisfied d s found ready inside =
      let (t, there) = lookup-of_elem d after inside in
      elim (after_cases d t there) [
        | inl (same, now) ↦
            let again : failed ≡ s =
              ground (arith, subst (λ j. lookup j m ≡ some failed) same found_failed) in
            absurd (ground arith)
        | inr (other, candidate) ↦
            rw (lookup-adjust, other)
              (h.kept d s found
                (λ skipped gone_too. absurd (ground (arith, gone d gone_too (fresh d gone_too)))))
      ]

  pub recovered-IsWellFormed : IsWellFormed (adjust id supersede m')
  unfolding after
  recovered-IsWellFormed = record {
    distinct = rw keys-adjust (h.distinct w.distinct);
    named = λ k r e. elim (after_cases k r e) [
      | inl (same, now) ↦ ground (arith, w.named id failed found_failed)
      | inr (_, there) ↦ elim (h.back k r there) [
        | inl before ↦ w.named k r before
        | inr (s, new, name, _) ↦ ground arith
      ]
    ];
    acyclic = acyclic;
    ordered = λ k r e started d dep.
        let (s, found, before, same_deps) = old_task k r e started in
        let (t, there, ready) = w.ordered k s found before d (rw same_deps dep) in
        let (rank, ranked) = acyclic in
        (t, kept_satisfied d t there ready (ranked k d r e dep).0, ready);
  }
