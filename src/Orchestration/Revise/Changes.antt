-- ===== src/Orchestration/Revise/Changes.antt =====
-- What the loops of `revise` and `recover_from_failure` do to the set of tasks.
use equi_seek.Prelude.{
  String, ◌==◌, eq_iff, ◌≡◌, ◌⊎◌, inl, inr, true, false, Bool-cases, Option-cases, some, List, [],
  ◌∷◌, elem, is_distinct, arith,
}
use equi_seek.Dict.{
  Dict, lookup, insert, erase, keys, lookup-insert, lookup-erase, is_distinct-insert,
  is_distinct-erase,
}
use equi_seek.Orchestration.Status.{is_pending}
use equi_seek.Orchestration.Spec.{TaskSpec, TaskRecord, new_record}
use equi_seek.Orchestration.Plan.{ok}
use equi_seek.Orchestration.Revise.{remove_pending}

-- A locked record stays as it is, and what is new is a fresh record for one of `specs`.
pub record Changes (Locked : String → TaskRecord → Type 0) (specs : List String)
    (m m' : Dict TaskRecord) : Type 0 where
  pub kept : (k : String) (r : TaskRecord) → lookup k m ≡ some r → Locked k r → lookup k m' ≡ some r
  pub back :
      (k : String) (r : TaskRecord)
      → lookup k m' ≡ some r
      → (lookup k m ≡ some r)
        ⊎ ((s : TaskSpec) × (r ≡ new_record s) × (s.id ≡ k) × (elem k specs ≡ true))
  pub distinct : is_distinct (keys m) ≡ true → is_distinct (keys m') ≡ true

abbrev pub NotPending : String → TaskRecord → Type 0
NotPending k r = is_pending r.status ≡ false

abbrev pub Anything : String → TaskRecord → Type 0
Anything k r = Unit {0}

module _ (Locked : String → TaskRecord → Type 0) (specs : List String) where
  pub Changes-refl : (m : Dict TaskRecord) → Changes Locked specs m m
  Changes-refl m = record { kept = λ k r e _. e; back = λ k r e. inl e; distinct = λ u. u }

  pub Changes-trans :
      (m m' m'' : Dict TaskRecord)
      → Changes Locked specs m m'
      → Changes Locked specs m' m''
      → Changes Locked specs m m''
  Changes-trans m m' m'' h g = record {
    kept = λ k r e l. g.kept k r (h.kept k r e l) l;
    back = λ k r e. elim (g.back k r e) [ inl e' ↦ h.back k r e' | inr new ↦ inr new ];
    distinct = λ u. g.distinct (h.distinct u);
  }

  pub Changes-erase :
      (id : String) (m : Dict TaskRecord)
      → ((r : TaskRecord) → lookup id m ≡ some r → Locked id r → ⊥)
      → Changes Locked specs m (erase id m)
  Changes-erase id m h = record {
    kept = λ k r e l. elim (Bool-cases (id == k)) [
      | inl same ↦ let q = (eq_iff id k).0 same in absurd (h r (rw q e) (rw q l))
      | inr other ↦ rw (lookup-erase, other) e
    ];
    back = λ k r e. inl (ground (arith, lookup-erase id k m));
    distinct = is_distinct-erase id m;
  }

  pub Changes-insert :
      (s : TaskSpec) (m : Dict TaskRecord)
      → elem s.id specs ≡ true
      → ((r : TaskRecord) → lookup s.id m ≡ some r → Locked s.id r → ⊥)
      → Changes Locked specs m (insert s.id (new_record s) m)
  Changes-insert s m i h = record {
    kept = λ k r e l. elim (Bool-cases (s.id == k)) [
      | inl same ↦ let q = (eq_iff s.id k).0 same in absurd (h r (rw q e) (rw q l))
      | inr other ↦ rw (lookup-insert, other) e
    ];
    back = λ k r e. elim (Bool-cases (s.id == k)) [
      | inl same ↦
          let q = (eq_iff s.id k).0 same in
          inr (s, ground (arith, lookup-insert s.id k (new_record s) m), q, rw (← q) i)
      | inr other ↦ inl (ground (arith, lookup-insert s.id k (new_record s) m))
    ];
    distinct = is_distinct-insert s.id (new_record s) m;
  }

pub remove_pending-Changes :
    (xs specs : List String) (m m' : Dict TaskRecord)
    → remove_pending xs m ≡ ok m'
    → Changes NotPending specs m m'
unfolding remove_pending
remove_pending-Changes [] specs m m' e =
    let same : m ≡ m' = cc in rw (← same) (Changes-refl NotPending specs m)
remove_pending-Changes (x ∷ xs) specs m m' e = elim (Option-cases (lookup x m)) [
  | inl absent ↦ absurd (ground arith)
  | inr (r, found) ↦
      Changes-trans NotPending specs m (erase x m) m'
        (Changes-erase NotPending specs x m (λ s here l. ground arith))
        (remove_pending-Changes xs specs (erase x m) m' (ground arith))
]
