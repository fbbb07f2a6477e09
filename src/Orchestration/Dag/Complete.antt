-- ===== src/Orchestration/Dag/Complete.antt =====
-- `_validate_dag` accepts every plan whose dependency graph is closed and acyclic.
use equi_seek.Prelude.{
  ℕ, zero, suc, ◌<◌, String, eq_iff, ◌≡◌, refl, ◌↔◌, ◌≢◌, Bool, true, false, not, List, [], ◌∷◌,
  none, some, elem, any, is_distinct, arith,
}
use equi_seek.Dict.{Dict, lookup, keys, elem-of_lookup, lookup-of_elem}
use equi_seek.Orchestration.Spec.{TaskRecord}
use equi_seek.Orchestration.Plan.{PlanError}
use equi_seek.Orchestration.Dag.{
  deps, Visit, done, raised, out_of_fuel, and_then, visit_each, visit, visit_step_cases, visit_all,
  find_missing, validate_dag, IsRankedBy, IsAcyclic,
}
use equi_seek.Orchestration.Dag.Fuel.{visit_all-ne-out_of_fuel}
use equi_seek.Orchestration.Dag.Sound.{validate_dag-IsAcyclic}

-- The call raises nothing.
abbrev IsQuiet : Visit → Type 0
IsQuiet v = (e : PlanError) → v ≡ raised e → ⊥

and_then-IsQuiet :
    (v : Visit) (f : List String → Visit)
    → IsQuiet v
    → ((vs : List String) → IsQuiet (f vs))
    → IsQuiet (and_then v f)
and_then-IsQuiet (done vs) f h k = k vs
and_then-IsQuiet (raised e) f h k = h
and_then-IsQuiet out_of_fuel f h k = h

visit_each-IsQuiet :
    (g : List String → String → Visit) (ds visited : List String)
    → ((vs : List String) (d : String) → elem d ds ≡ true → IsQuiet (g vs d))
    → IsQuiet (visit_each g visited ds)
unfolding visit_each elem
visit_each-IsQuiet g [] visited h = λ e q. cc
visit_each-IsQuiet g (d ∷ ds) visited h =
    and_then-IsQuiet (g visited d) _ (h visited d (ground (arith, eq_iff d d)))
      (λ vs. visit_each-IsQuiet g ds vs (λ us x m. h us x (ground arith)))

module _ (tasks : Dict TaskRecord) (rank : String → ℕ) (ranked : IsRankedBy rank tasks) where
  visit-IsQuiet :
      (fuel : ℕ) (visiting visited : List String) (x : String)
      → elem x (keys tasks) ≡ true
      → ((v : String) → elem v visiting ≡ true → rank x < rank v)
      → IsQuiet (visit fuel tasks visiting visited x)
  unfolding visit elem
  visit-IsQuiet zero visiting visited x k above = λ e q. cc
  visit-IsQuiet (suc fuel) visiting visited x k above =
      visit_step_cases IsQuiet _ tasks visiting visited x
        (λ looped e q. absurd (omega (arith, above x looped))) (λ _ e q. cc)
        (λ absent e q. let (r, found) = lookup-of_elem x tasks k in cc)
        λ r fresh unseen found.
          and_then-IsQuiet _ _
            (visit_each-IsQuiet _ (deps r) visited λ vs d dep.
              let (inside, below) = ranked x d r found dep in
              visit-IsQuiet fuel (x ∷ visiting) vs d inside
                (λ v m. ground (arith, eq_iff x v, above v)))
            (λ vs e q. cc)

  visit_all-IsQuiet : IsQuiet (visit_all tasks)
  unfolding visit_all elem
  visit_all-IsQuiet =
      visit_each-IsQuiet _ (keys tasks) [] (λ vs d m. visit-IsQuiet _ [] vs d m (λ v n. cc))

any-eq-false :
    (p : String → Bool) (xs : List String)
    → ((x : String) → elem x xs ≡ true → p x ≡ false)
    → any p xs ≡ false
unfolding any elem
any-eq-false p [] h = refl
any-eq-false p (x ∷ xs) h =
    ground (arith, eq_iff x x, h x, any-eq-false p xs (λ y m. h y (ground arith)))

find_missing-eq-none :
    (ids : List String) (m : Dict TaskRecord)
    → is_distinct (keys m) ≡ true
    → ((x d : String) (r : TaskRecord)
        → lookup x m ≡ some r
        → elem d (deps r) ≡ true
        → elem d ids ≡ true)
    → find_missing ids m ≡ none
unfolding find_missing is_distinct keys lookup
find_missing-eq-none ids [] u h = refl
find_missing-eq-none ids ((k, r) ∷ m) u h = ground (
  arith,
  any-eq-false (λ d. not (elem d ids)) (deps r)
      (λ d dep. ground (arith, h k d r (ground (arith, eq_iff k k)) dep)),
  find_missing-eq-none ids m (ground arith)
      (λ x d s found dep. h x d s (ground (arith, eq_iff k x, elem-of_lookup x m s found)) dep),
)

-- `_validate_dag` accepts a plan exactly if its dependency graph is closed and acyclic.
-- The keys of a `dict` are distinct, which an association list has to be told.
pub validate_dag_iff :
    (tasks : Dict TaskRecord)
    → is_distinct (keys tasks) ≡ true
    → (validate_dag tasks ≡ none) ↔ IsAcyclic tasks
unfolding validate_dag
validate_dag_iff tasks u = (validate_dag-IsAcyclic tasks, λ (rank, ranked). accepts rank ranked)
  where
    quiet : (v : Visit) → IsQuiet v → v ≢ out_of_fuel → (vs : List String) × (v ≡ done vs)
    quiet (done vs) q f = (vs, refl)
    quiet (raised e) q f = absurd (q e refl)
    quiet out_of_fuel q f = absurd (f refl)

    accepts : (rank : String → ℕ) → IsRankedBy rank tasks → validate_dag tasks ≡ none
    accepts rank ranked =
        let (vs, ends) =
          quiet (visit_all tasks) (visit_all-IsQuiet tasks rank ranked)
            (visit_all-ne-out_of_fuel tasks) in
        let none_missing =
          find_missing-eq-none (keys tasks) tasks u
            (λ x d r found dep. (ranked x d r found dep).0) in
        ground (arith, none_missing, ends)
