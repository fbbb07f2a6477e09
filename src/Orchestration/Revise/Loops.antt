-- ===== src/Orchestration/Revise/Loops.antt =====
-- The remaining loops of `create`, `revise` and `recover_from_failure`, as `Changes`.
use equi_seek.Prelude.{
  String, ◌==◌, eq_iff, ◌≡◌, refl, inl, inr, true, false, Bool-cases, Option-cases, none, List, [],
  ◌∷◌, elem, arith,
}
use equi_seek.Dict.{Dict, lookup, insert, erase, lookup-erase}
use equi_seek.Orchestration.Status.{is_skipped}
use equi_seek.Orchestration.Spec.{TaskSpec, TaskRecord, new_record}
use equi_seek.Orchestration.Plan.{ok, Result-cases}
use equi_seek.Orchestration.Revise.{
  ids, remove_pending, upsert_specs, remove_skipped, add_specs, is_replaceable, new_records,
  revise_tasks, recovery_tasks,
}
use equi_seek.Orchestration.Revise.Changes.{
  Changes, NotPending, Anything, Changes-refl, Changes-trans, Changes-erase, Changes-insert,
  remove_pending-Changes,
}

abbrev pub Names : List TaskSpec → List String → Type 0
Names xs specs = (k : String) → elem k (ids xs) ≡ true → elem k specs ≡ true

upsert_specs-Changes :
    (xs : List TaskSpec) (specs : List String) (m m' : Dict TaskRecord)
    → Names xs specs
    → upsert_specs xs m ≡ ok m'
    → Changes NotPending specs m m'
unfolding upsert_specs elem
upsert_specs-Changes [] specs m m' n e =
    let same : m ≡ m' = cc in rw (← same) (Changes-refl NotPending specs m)
upsert_specs-Changes (x ∷ xs) specs m m' n e = elim (Bool-cases (is_replaceable (lookup x.id m))) [
  | inl free ↦
      Changes-trans NotPending specs m (insert x.id (new_record x) m) m'
        (Changes-insert NotPending specs x m (n x.id (ground (arith, eq_iff x.id x.id)))
          (λ s here l. ground arith))
        (upsert_specs-Changes xs specs (insert x.id (new_record x) m) m' (λ k h. n k (ground arith))
          (ground arith))
  | inr taken ↦ absurd (ground arith)
]

abbrev pub NotSkipped : List String → String → TaskRecord → Type 0
NotSkipped removed k r = (is_skipped r.status ≡ true) → (elem k removed ≡ true) → ⊥

remove_skipped-Changes :
    (xs removed specs : List String) (m m' : Dict TaskRecord)
    → ((k : String) → elem k xs ≡ true → elem k removed ≡ true)
    → remove_skipped xs m ≡ ok m'
    → Changes (NotSkipped removed) specs m m'
unfolding remove_skipped elem
remove_skipped-Changes [] removed specs m m' n e =
    let same : m ≡ m' = cc in rw (← same) (Changes-refl (NotSkipped removed) specs m)
remove_skipped-Changes (x ∷ xs) removed specs m m' n e = elim (Option-cases (lookup x m)) [
  | inl absent ↦ absurd (ground arith)
  | inr (r, found) ↦
      Changes-trans (NotSkipped removed) specs m (erase x m) m'
        (Changes-erase (NotSkipped removed) specs x m
          (λ s here l. l (ground arith) (n x (ground (arith, eq_iff x x)))))
        (remove_skipped-Changes xs removed specs (erase x m) m' (λ k h. n k (ground arith))
          (ground arith))
]

-- what is removed stays away
remove_skipped-gone :
    (xs : List String) (m m' : Dict TaskRecord) (k : String)
    → remove_skipped xs m ≡ ok m'
    → (elem k xs ≡ true → lookup k m' ≡ none) × (lookup k m ≡ none → lookup k m' ≡ none)
unfolding remove_skipped elem
remove_skipped-gone [] m m' k e = (λ h. cc, λ h. ground arith)
remove_skipped-gone (x ∷ xs) m m' k e = elim (Option-cases (lookup x m)) [
  | inl absent ↦ absurd (ground arith)
  | inr (r, found) ↦
      let (later, stays) = remove_skipped-gone xs (erase x m) m' k (ground arith) in
      (
        λ h. elim (Bool-cases (x == k)) [
          | inl same ↦ stays (rw (lookup-erase, same) refl)
          | inr other ↦ later (ground arith)
        ],
        λ h. stays (ground (arith, lookup-erase x k m)),
      )
]

add_specs-Changes :
    (xs : List TaskSpec) (specs : List String) (m m' : Dict TaskRecord)
    → Names xs specs
    → add_specs xs m ≡ ok m'
    → Changes Anything specs m m'
unfolding add_specs elem
add_specs-Changes [] specs m m' n e =
    let same : m ≡ m' = cc in rw (← same) (Changes-refl Anything specs m)
add_specs-Changes (x ∷ xs) specs m m' n e = elim (Option-cases (lookup x.id m)) [
  | inr (r, found) ↦ absurd (ground arith)
  | inl free ↦
      Changes-trans Anything specs m (insert x.id (new_record x) m) m'
        (Changes-insert Anything specs x m (n x.id (ground (arith, eq_iff x.id x.id)))
          (λ s here l. cc))
        (add_specs-Changes xs specs (insert x.id (new_record x) m) m' (λ k h. n k (ground arith))
          (ground arith))
]

-- The tasks of a new plan are fresh records of its specs.
pub new_records-Changes :
    (xs : List TaskSpec) (specs : List String) (m : Dict TaskRecord)
    → Names xs specs
    → Changes (λ k r. ⊥) specs m (new_records xs m)
unfolding new_records elem
new_records-Changes [] specs m n = Changes-refl (λ k r. ⊥) specs m
new_records-Changes (x ∷ xs) specs m n =
    Changes-trans (λ k r. ⊥) specs m (insert x.id (new_record x) m) _
      (Changes-insert (λ k r. ⊥) specs x m (n x.id (ground (arith, eq_iff x.id x.id))) (λ r e l. l))
      (new_records-Changes xs specs (insert x.id (new_record x) m) (λ k h. n k (ground arith)))

-- A revision leaves every task that is not pending as it is.
pub revise_tasks-Changes :
    (xs : List TaskSpec) (removed : List String) (m m' : Dict TaskRecord)
    → revise_tasks xs removed m ≡ ok m'
    → Changes NotPending (ids xs) m m'
unfolding revise_tasks
revise_tasks-Changes xs removed m m' e = elim (Result-cases (remove_pending removed m)) [
  | inl (m1, first) ↦
      Changes-trans NotPending (ids xs) m m1 m' (remove_pending-Changes removed (ids xs) m m1 first)
        (upsert_specs-Changes xs (ids xs) m1 m' (λ k h. h) (ground arith))
  | inr (x, bad) ↦ absurd (ground arith)
]

-- A recovery leaves every task as it is but the skipped ones that it removes.
pub recovery_tasks-Changes :
    (xs : List TaskSpec) (removed : List String) (m m' : Dict TaskRecord)
    → recovery_tasks xs removed m ≡ ok m'
    → Changes (NotSkipped removed) (ids xs) m m'
      × ((k : String) → elem k removed ≡ true → elem k (ids xs) ≡ false → lookup k m' ≡ none)
unfolding recovery_tasks
recovery_tasks-Changes xs removed m m' e = elim (Result-cases (remove_skipped removed m)) [
  | inl (m1, first) ↦
      let added = add_specs-Changes xs (ids xs) m1 m' (λ k h. h) (ground arith) in
      (
        Changes-trans (NotSkipped removed) (ids xs) m m1 m'
            (remove_skipped-Changes removed removed (ids xs) m m1 (λ k h. h) first)
            (record {
              kept = λ k r h l. added.kept k r h tt;
              back = added.back;
              distinct = added.distinct;
            }),
        λ k gone fresh. elim (Option-cases (lookup k m')) [
          | inl absent ↦ absent
          | inr (r, there) ↦ elim (added.back k r there) [
            | inl before ↦
                absurd (ground (arith, (remove_skipped-gone removed m m1 k first).0 gone))
            | inr (s, _, _, inside) ↦ absurd (ground arith)
          ]
        ],
      )
  | inr (x, bad) ↦ absurd (ground arith)
]
