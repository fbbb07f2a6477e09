-- ===== src/Orchestration/Evolves.antt =====
-- How the tasks of a plan may change in one call of a method that keeps the set of tasks.
use equi_seek.Prelude.{
  String, ◌==◌, eq_iff, ◌≡◌, refl, sym, ◌∙◌, ◌⊎◌, inl, inr, Bool, true, false, Bool-cases, some,
  List, subst,
}
use equi_seek.Dict.{
  Dict, lookup, adjust, update_all, keys, keys-adjust, keys-update_all, lookup-adjust,
  lookup-update_all,
}
use equi_seek.Orchestration.Status.{TaskStatus, terminal}
use equi_seek.Orchestration.Spec.{TaskRecord}
use equi_seek.Orchestration.Dag.{deps}

-- A task that has run, or has been let through to its approval.
abbrev pub has_started : TaskStatus → Bool
has_started TaskStatus.running = true
has_started TaskStatus.waiting_approval = true
has_started TaskStatus.succeeded = true
has_started TaskStatus.failed = true
has_started TaskStatus.superseded = true
has_started _ = false

-- `Ready ds` says when a task with the dependencies `ds` may start.
pub record IsStep (Ready : List String → Type 0) (r r' : TaskRecord) : Type 0 where
  pub same_spec : r'.spec ≡ r.spec
  pub kept : terminal r.status ≡ true → r' ≡ r
  pub started : has_started r'.status ≡ true → (has_started r.status ≡ true) ⊎ Ready (deps r)

pub record Evolves (Ready : List String → Type 0) (m m' : Dict TaskRecord) : Type 0 where
  pub same_keys : keys m' ≡ keys m
  pub each :
      (k : String) (r : TaskRecord)
      → lookup k m ≡ some r
      → (r' : TaskRecord) × (lookup k m' ≡ some r') × IsStep Ready r r'

-- no task starts
abbrev pub Never : List String → Type 0
Never ds = ⊥

module _ (Ready : List String → Type 0) where
  pub IsStep-refl : (r : TaskRecord) → IsStep Ready r r
  IsStep-refl r = record { same_spec = refl; kept = λ h. refl; started = λ h. inl h }

  pub Evolves-refl : (m : Dict TaskRecord) → Evolves Ready m m
  Evolves-refl m = record { same_keys = refl; each = λ k r e. (r, e, IsStep-refl r) }

  IsStep-trans :
      (r r' r'' : TaskRecord) → IsStep Ready r r' → IsStep Never r' r'' → IsStep Ready r r''
  IsStep-trans r r' r'' h g = record {
    same_spec = g.same_spec ∙ h.same_spec;
    kept = λ t. g.kept (subst (λ x. terminal x.status ≡ true) (sym (h.kept t)) t) ∙ h.kept t;
    started = λ t. elim (g.started t) [ inl s ↦ h.started s | inr n ↦ absurd n ];
  }

  pub Evolves-trans :
      (m m' m'' : Dict TaskRecord) → Evolves Ready m m' → Evolves Never m' m'' → Evolves Ready m m''
  Evolves-trans m m' m'' h g = record {
    same_keys = g.same_keys ∙ h.same_keys;
    each = λ k r e.
        let (r', e', s) = h.each k r e in
        let (r'', e'', s') = g.each k r' e' in (r'', e'', IsStep-trans r r' r'' s s');
  }

  pub Evolves-update_all :
      (f : String → TaskRecord → TaskRecord) (m : Dict TaskRecord)
      → ((k : String) (r : TaskRecord) → IsStep Ready r (f k r))
      → Evolves Ready m (update_all f m)
  Evolves-update_all f m h = record {
    same_keys = keys-update_all f m;
    each = λ k r e. (f k r, rw (lookup-update_all, e), h k r);
  }

  pub Evolves-adjust :
      (id : String) (f : TaskRecord → TaskRecord) (m : Dict TaskRecord)
      → ((r : TaskRecord) → lookup id m ≡ some r → IsStep Ready r (f r))
      → Evolves Ready m (adjust id f m)
  Evolves-adjust id f m h = record {
    same_keys = keys-adjust id f m;
    each = λ k r e. elim (Bool-cases (id == k)) [
      | inl same ↦ (f r, rw (lookup-adjust, same, e), h r (rw ((eq_iff id k).0 same) e))
      | inr other ↦ (r, rw (lookup-adjust, other, e), IsStep-refl r)
    ];
  }
