-- ===== src/Orchestration/Dag/Fuel.antt =====
-- The search of `_validate_dag` ends: each call of `visit` puts one more key on `visiting`.
use equi_seek.Prelude.{
  ℕ, zero, suc, ◌≤◌, ◌<◌, String, eq_iff, ◌≡◌, ◌≢◌, true, false, List, [], ◌∷◌, length, elem, arith,
  if◌then◌else◌,
}
use equi_seek.Dict.{Dict, keys, elem-of_lookup}
use equi_seek.Orchestration.Spec.{TaskRecord}
use equi_seek.Orchestration.Dag.{
  deps, Visit, done, raised, out_of_fuel, and_then, visit_each, visit, visit_step_cases, visit_all,
}

-- how many keys are not on `visiting`
free : List String → List String → ℕ
free visiting [] = 0
free visiting (k ∷ ks) = let rest = free visiting ks in if elem k visiting then rest else suc rest

free-cons_le : (x : String) (vs ks : List String) → free (x ∷ vs) ks ≤ free vs ks
unfolding free elem
free-cons_le x vs [] = omega arith
free-cons_le x vs (k ∷ ks) = ground (arith, free-cons_le x vs ks)

free-cons_lt :
    (x : String) (vs ks : List String)
    → elem x ks ≡ true
    → elem x vs ≡ false
    → free (x ∷ vs) ks < free vs ks
unfolding free elem
free-cons_lt x vs [] h n = cc
free-cons_lt x vs (k ∷ ks) h n =
    ground (arith, eq_iff k x, eq_iff x k, free-cons_le x vs ks, free-cons_lt x vs ks)

free-le_length : (vs ks : List String) → free vs ks ≤ length ks
unfolding free
free-le_length vs [] = omega arith
free-le_length vs (k ∷ ks) = ground (arith, free-le_length vs ks)

and_then-ne-out_of_fuel :
    (v : Visit) (f : List String → Visit)
    → v ≢ out_of_fuel
    → ((vs : List String) → f vs ≢ out_of_fuel)
    → and_then v f ≢ out_of_fuel
and_then-ne-out_of_fuel (done vs) f h k = k vs
and_then-ne-out_of_fuel (raised e) f h k = h
and_then-ne-out_of_fuel out_of_fuel f h k = h

visit_each-ne-out_of_fuel :
    (g : List String → String → Visit)
    → ((vs : List String) (d : String) → g vs d ≢ out_of_fuel)
    → (ds vs : List String) → visit_each g vs ds ≢ out_of_fuel
unfolding visit_each
visit_each-ne-out_of_fuel g h [] vs = λ e. cc
visit_each-ne-out_of_fuel g h (d ∷ ds) vs =
    and_then-ne-out_of_fuel (g vs d) _ (h vs d) (visit_each-ne-out_of_fuel g h ds)

visit-ne-out_of_fuel :
    (fuel : ℕ) (tasks : Dict TaskRecord) (visiting visited : List String) (x : String)
    → free visiting (keys tasks) < fuel
    → visit fuel tasks visiting visited x ≢ out_of_fuel
unfolding visit
visit-ne-out_of_fuel zero tasks visiting visited x h = absurd (omega arith)
visit-ne-out_of_fuel (suc fuel) tasks visiting visited x h =
    visit_step_cases (λ v. v ≢ out_of_fuel) _ tasks visiting visited x (λ _ q. cc) (λ _ q. cc)
      (λ _ q. cc)
      λ r fresh _ found.
        and_then-ne-out_of_fuel _ _
          (visit_each-ne-out_of_fuel _
            (λ vs d. visit-ne-out_of_fuel fuel tasks (x ∷ visiting) vs d (
              omega (
                arith,
                free-cons_lt x visiting (keys tasks) (elem-of_lookup x tasks r found) fresh,
              )))
            (deps r) visited)
          (λ vs q. cc)

-- Whatever the graph, the search of `_validate_dag` ends with the fuel that `visit_all` gives it.
pub visit_all-ne-out_of_fuel : (tasks : Dict TaskRecord) → visit_all tasks ≢ out_of_fuel
unfolding visit_all
visit_all-ne-out_of_fuel tasks =
    visit_each-ne-out_of_fuel _
      (λ vs d. visit-ne-out_of_fuel _ tasks [] vs d (omega (arith, free-le_length [] (keys tasks))))
      (keys tasks) []
