-- ===== src/Orchestration/Calls/Evidence.antt =====
-- Terminal tasks are the evidence of a plan: what the calls do to them.
use equi_seek.Prelude.{
  String, ◌==◌, eq_iff, ◌≡◌, ◌⊎◌, inl, inr, true, Bool-cases, Option, some, elem, is_distinct,
  arith, ◌&&◌, List,
}
use equi_seek.Dict.{Dict, lookup, keys, adjust, lookup-adjust}
use equi_seek.Orchestration.Status.{TaskStatus, terminal, is_skipped}
use equi_seek.Orchestration.Spec.{TaskRecord}
use equi_seek.Orchestration.Plan.{Plan, Clock}
use equi_seek.Orchestration.Evolves.{Evolves}
use equi_seek.Orchestration.Refresh.Ready.{AllSatisfied}
use equi_seek.Orchestration.Revise.{supersede}
use equi_seek.Orchestration.Revise.Loops.{NotSkipped}
use equi_seek.Orchestration.Calls.{Call, revised, recovered, perform}
use equi_seek.Orchestration.Calls.Cases.{perform_cases}

-- What may have become of the terminal record `r` of task `k`: it is as it was; only a recovery
-- supersedes the failed task that it names, or removes skipped tasks that it lists.
abbrev pub IsKept : Call → String → TaskRecord → Option TaskRecord → Type 0
IsKept (recovered id add removed reason actor) k r o =
    (o ≡ some r)
    ⊎ ((id ≡ k) × (r.status ≡ TaskStatus.failed) × (o ≡ some (supersede r)))
    ⊎ ((is_skipped r.status ≡ true) × (elem k removed ≡ true))
IsKept _ k r o = o ≡ some r

module _ (now : Clock) (p : Plan) (distinct : is_distinct (keys p.tasks) ≡ true) (k : String)
    (r : TaskRecord) (found : lookup k p.tasks ≡ some r) (over : terminal r.status ≡ true) where
  abbrev Same : Dict TaskRecord → Type 0
  Same m = lookup k m ≡ some r

  evolved-Same : (m : Dict TaskRecord) → Evolves (AllSatisfied p.tasks) p.tasks m → Same m
  evolved-Same m h = let (r', found', step) = h.each k r found in rw (found', step.kept over)

  recovered_kept :
      (id : String) (removed : List String) (failed : TaskRecord) (m : Dict TaskRecord)
      → lookup id p.tasks ≡ some failed
      → failed.status ≡ TaskStatus.failed
      → (NotSkipped removed k r → Same m)
      → (lookup k (adjust id supersede m) ≡ some r)
        ⊎ ((id ≡ k)
            × (r.status ≡ TaskStatus.failed)
            × (lookup k (adjust id supersede m) ≡ some (supersede r)))
        ⊎ ((is_skipped r.status ≡ true) × (elem k removed ≡ true))
  recovered_kept id removed failed m there bad h =
      elim (Bool-cases (is_skipped r.status && elem k removed)) [
        | inl both ↦ inr (inr (ground arith))
        | inr not_both ↦
            let same : Same m = h (λ a b. ground arith) in
            elim (Bool-cases (id == k)) [
              | inl named ↦
                  let q = (eq_iff id k).0 named in
                  let one : failed ≡ r = ground (arith, q) in
                  inr (inl (q, ground arith, rw (lookup-adjust, named, same)))
              | inr other ↦ inl (rw (lookup-adjust, other) same)
            ]
      ]

  -- On every plan whose keys are distinct, as those of a dict are, each call leaves each terminal
  -- task's record (result, error, summary, times) as it is, but for a recovery, which may supersede
  -- the failed task that it names and remove skipped tasks that it lists.
  pub perform-IsKept : (c : Call) → IsKept c k r (lookup k (perform now c p).1.tasks)
  perform-IsKept (revised upsert remove reason actor) =
      perform_cases Same now p distinct evolved-Same (revised upsert remove reason actor)
        (λ m h a. h.kept k r found (ground arith))
  perform-IsKept (recovered id add removed reason actor) =
      perform_cases (λ m. IsKept (recovered id add removed reason actor) k r (lookup k m)) now p
        distinct (λ m h. inl (evolved-Same m h)) (recovered id add removed reason actor)
        λ failed m there bad h gone a.
          recovered_kept id removed failed m there bad (λ n. h.kept k r found n)
  perform-IsKept c = perform_cases Same now p distinct evolved-Same c tt
