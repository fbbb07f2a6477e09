-- ===== src/Orchestration/Dag/Sound.antt =====
-- A plan that `_validate_dag` accepts has no dependency cycle.
use equi_seek.Prelude.{
  Bool-cases, inl, inr, ℕ, zero, suc, ◌≤◌, ◌<◌, String, ◌==◌, eq_iff, ◌≡◌, refl, true, false, List,
  [], ◌∷◌, none, some, length, elem, arith, if◌then◌else◌, subst,
}
use equi_seek.Dict.{Dict, lookup, keys, elem-of_lookup}
use equi_seek.Orchestration.Spec.{TaskRecord}
use equi_seek.Orchestration.Dag.{
  deps, Visit, done, raised, out_of_fuel, and_then, visit_each, visit, visit_step_cases, visit_all,
  validate_dag, IsAcyclic,
}
use equi_seek.Orchestration.Dag.Fuel.{visit_all-ne-out_of_fuel}

abbrev Within : List String → List String → Type 0
Within xs vs = (x : String) → elem x xs ≡ true → elem x vs ≡ true

abbrev Apart : List String → List String → Type 0
Apart xs vs = (x : String) → elem x xs ≡ true → elem x vs ≡ false

-- Each task stands once, before (so finished after) the tasks that it depends on.
abbrev IsTopological : Dict TaskRecord → List String → Type 0
IsTopological tasks [] = Unit
IsTopological tasks (x ∷ vs) =
    (r : TaskRecord) × (lookup x tasks ≡ some r)
    × Within (deps r) vs
    × (elem x vs ≡ false)
    × IsTopological tasks vs

-- What a call that returns `vs` has done to `visited`.
record IsExplored (tasks : Dict TaskRecord) (visiting visited vs : List String) : Type 0 where
  sorted : IsTopological tasks vs
  grows : Within visited vs
  apart : Apart visiting vs

and_then-eq-done :
    (v : Visit) (f : List String → Visit) {ws : List String}
    → and_then v f ≡ done ws
    → (vs : List String) × (v ≡ done vs) × (f vs ≡ done ws)
and_then-eq-done (done vs) f h = (vs, refl, h)
and_then-eq-done (raised e) f h = cc
and_then-eq-done out_of_fuel f h = cc

module _ (tasks : Dict TaskRecord) (visiting : List String) where
  -- what `visit_each` asks of the call in its loop
  abbrev Explores : (List String → String → Visit) → Type 0
  Explores g =
      (visited : List String) (d : String) (vs : List String)
      → IsTopological tasks visited
      → Apart visiting visited
      → g visited d ≡ done vs
      → IsExplored tasks visiting visited vs × (elem d vs ≡ true)

  visit_each-IsExplored :
      (g : List String → String → Visit)
      → Explores g
      → (ds visited vs : List String) → IsTopological tasks visited
      → Apart visiting visited
      → visit_each g visited ds ≡ done vs
      → IsExplored tasks visiting visited vs × Within ds vs
  unfolding visit_each elem
  visit_each-IsExplored g h [] visited vs t a e =
      let same : visited ≡ vs = cc in
      (
        record {
          sorted = subst (IsTopological tasks) same t;
          grows = λ x m. subst (λ l. elem x l ≡ true) same m;
          apart = λ x m. subst (λ l. elem x l ≡ false) same (a x m);
        },
        λ x m. cc,
      )
  visit_each-IsExplored g h (d ∷ ds) visited vs t a e =
      let (us, first, later) = and_then-eq-done (g visited d) _ e in
      let (here, found) = h visited d us t a first in
      let (rest, all) = visit_each-IsExplored g h ds us vs here.sorted here.apart later in
      (
        record {
          sorted = rest.sorted;
          grows = λ x m. rest.grows x (here.grows x m);
          apart = rest.apart;
        },
        λ x m. ground (arith, eq_iff d x, rest.grows d found, all x),
      )

cons-IsExplored :
    (tasks : Dict TaskRecord) (visiting visited vs : List String) (x : String) (r : TaskRecord)
    → elem x visiting ≡ false
    → lookup x tasks ≡ some r
    → IsExplored tasks (x ∷ visiting) visited vs
    → Within (deps r) vs
    → IsExplored tasks visiting visited (x ∷ vs) × (elem x (x ∷ vs) ≡ true)
unfolding elem
cons-IsExplored tasks visiting visited vs x r fresh found h w = (
  record {
    sorted = (r, found, w, h.apart x (ground (arith, eq_iff x x)), h.sorted);
    grows = λ y m. ground (arith, h.grows y);
    apart = λ y m. ground (arith, eq_iff x y, h.apart y);
  },
  ground (arith, eq_iff x x),
)

visit-Explores :
    (fuel : ℕ) (tasks : Dict TaskRecord) (visiting : List String)
    → Explores tasks visiting (visit fuel tasks visiting)
unfolding visit elem
visit-Explores zero tasks visiting visited d vs t a = λ e. cc
visit-Explores (suc fuel) tasks visiting visited d vs t a =
    visit_step_cases (λ v. v ≡ done vs → IsExplored tasks visiting visited vs × (elem d vs ≡ true))
      _ tasks visiting visited d (λ _ e. cc)
      (λ seen e.
        subst (λ l. IsExplored tasks visiting visited l × (elem d l ≡ true))
          (let same : visited ≡ vs = cc in same)
          (record { sorted = t; grows = λ x m. m; apart = a }, seen))
      (λ _ e. cc)
      λ r fresh unseen found e.
        let (us, inner, last) = and_then-eq-done _ _ e in
        let (h, w) =
          visit_each-IsExplored tasks (d ∷ visiting) (visit fuel tasks (d ∷ visiting))
            (visit-Explores fuel tasks (d ∷ visiting)) (deps r) visited us t
            (λ x m. ground (arith, eq_iff d x, a x)) inner in
        subst (λ l. IsExplored tasks visiting visited l × (elem d l ≡ true))
          (let same : d ∷ us ≡ vs = cc in same)
          (cons-IsExplored tasks visiting visited us d r fresh found h w)

-- the place of a task in the list, counted from its end
rank_in : List String → String → ℕ
rank_in [] x = 0
rank_in (y ∷ vs) x = if y == x then suc (length vs) else rank_in vs x

rank_in-le_length : (vs : List String) (x : String) → rank_in vs x ≤ length vs
unfolding rank_in
rank_in-le_length [] x = omega arith
rank_in-le_length (y ∷ vs) x = ground (arith, rank_in-le_length vs x)

rank_in-lt :
    (tasks : Dict TaskRecord) (vs : List String) (x d : String) (r : TaskRecord)
    → IsTopological tasks vs
    → elem x vs ≡ true
    → lookup x tasks ≡ some r
    → elem d (deps r) ≡ true
    → (elem d vs ≡ true) × (rank_in vs d < rank_in vs x)
unfolding rank_in elem
rank_in-lt tasks [] x d r t m found dep = cc
rank_in-lt tasks (y ∷ vs) x d r (s, at_y, w, once, t) m found dep = elim (Bool-cases (y == x)) [
  | inl e ↦
      let same : s ≡ r = ground (arith, eq_iff y x) in
      let inside : elem d vs ≡ true = w d (rw same dep) in
      ground (arith, eq_iff y x, eq_iff y d, rank_in-le_length vs d)
  | inr e ↦ ground (arith, eq_iff y d, rank_in-lt tasks vs x d r t)
]

IsTopological-lookup :
    (tasks : Dict TaskRecord) (vs : List String) (x : String)
    → IsTopological tasks vs
    → elem x vs ≡ true
    → elem x (keys tasks) ≡ true
unfolding elem
IsTopological-lookup tasks [] x t m = cc
IsTopological-lookup tasks (y ∷ vs) x (s, at_y, w, once, t) m =
    ground (arith, eq_iff y x, elem-of_lookup y tasks s, IsTopological-lookup tasks vs x t)

visit_all-IsAcyclic :
    (tasks : Dict TaskRecord) (vs : List String) → visit_all tasks ≡ done vs → IsAcyclic tasks
unfolding visit_all elem
visit_all-IsAcyclic tasks vs e =
    let (h, w) =
      visit_each-IsExplored tasks [] _ (visit-Explores _ tasks []) (keys tasks) [] vs tt (λ x m. cc)
        e in
    (
      rank_in vs,
      λ x d r found dep.
          let (inside, below) =
            rank_in-lt tasks vs x d r h.sorted (w x (elem-of_lookup x tasks r found)) found dep in
          (IsTopological-lookup tasks vs d h.sorted inside, below),
    )

-- A plan that `_validate_dag` accepts is closed under dependencies and has no cycle.
pub validate_dag-IsAcyclic : (tasks : Dict TaskRecord) → validate_dag tasks ≡ none → IsAcyclic tasks
unfolding validate_dag
validate_dag-IsAcyclic tasks h = by_outcome (visit_all tasks) refl
  where
    by_outcome : (v : Visit) → visit_all tasks ≡ v → IsAcyclic tasks
    by_outcome (done vs) e = visit_all-IsAcyclic tasks vs e
    by_outcome (raised x) e = absurd (ground arith)
    by_outcome out_of_fuel e = absurd (visit_all-ne-out_of_fuel tasks e)
