-- ===== src/Orchestration/Refresh/Skip.antt =====
-- What `_skip_blocked` of src/aegisrun/orchestration/models.py does to each task.
use equi_seek.Prelude.{
  ℕ, zero, suc, ◌≤◌, ◌<◌, String, ◌==◌, eq_iff, ◌≡◌, refl, inl, inr, Bool, true, false, Bool-cases,
  List, [], ◌∷◌, some, length, elem, any, is_distinct, arith, subst, sym,
}
use equi_seek.Dict.{Dict, lookup, keys, elem-of_lookup}
use equi_seek.Orchestration.Status.{is_pending, is_failure}
use equi_seek.Orchestration.Spec.{TaskRecord}
use equi_seek.Orchestration.Plan.{Clock}
use equi_seek.Orchestration.Dag.{deps}
use equi_seek.Orchestration.Evolves.{Never, IsStep, IsStep-refl, Evolves}
use equi_seek.Orchestration.Refresh.{failure_ids, is_blocked, sweep, sweeps, skip_blocked}
use equi_seek.Orchestration.Refresh.Sweep.{
  Doomed, failure, dependent, skipped_by, Fate, Pairs, Listed, Unblocked, Sound, Includes, pendings,
  sweep-Swept,
}

module _ (m : Dict TaskRecord) (now : Clock) where
  -- How the loop ends: no pending task is left with a dependency in `failed`.
  record Ended (failed : List String) (m' : Dict TaskRecord) : Type 0 where
    final : List String
    pairs : Pairs (Fate m now final) m m'
    sound : Sound m final
    grows : Includes failed final
    calm : Unblocked final m'

  sweeps-Ended :
      (fuel : ℕ) (failed : List String) (m1 : Dict TaskRecord)
      → Listed m m
      → Sound m failed
      → Pairs (Fate m now failed) m m1
      → pendings m1 < fuel
      → Ended failed (sweeps fuel now failed m1)
  unfolding sweeps
  sweeps-Ended zero failed m1 l s h f = absurd (omega arith)
  sweeps-Ended (suc fuel) failed m1 l s h f =
      let out = sweep-Swept m now failed m m1 l s h in
      elim (Bool-cases (sweep now failed m1).2) [
        | inl more ↦
            let rest =
              sweeps-Ended fuel (sweep now failed m1).1 (sweep now failed m1).0 l out.sound
                out.pairs (omega (arith, out.falls more)) in
            rw (more, sweeps)
              (record {
                final = rest.final;
                pairs = rest.pairs;
                sound = rest.sound;
                grows = λ k e. rest.grows k (out.grows k e);
                calm = rest.calm;
              })
        | inr over ↦
            let (same, same_failed, calm) = out.calm over in
            rw (over, sweeps)
              (record {
                final = (sweep now failed m1).1;
                pairs = out.pairs;
                sound = out.sound;
                grows = out.grows;
                calm = rw (same, same_failed) calm;
              })
      ]

  Listed-of_distinct :
      (rest : Dict TaskRecord)
      → is_distinct (keys rest) ≡ true
      → ((k : String) (r : TaskRecord) → lookup k rest ≡ some r → lookup k m ≡ some r)
      → Listed m rest
  unfolding is_distinct keys lookup
  Listed-of_distinct [] u h = tt
  Listed-of_distinct ((k, r) ∷ rest) u h = (
    h k r (ground (arith, eq_iff k k)),
    Listed-of_distinct rest (ground arith)
        λ j s found. h j s (ground (arith, eq_iff k j, elem-of_lookup j rest s found)),
  )

  failure_ids-Sound : (rest : Dict TaskRecord) → Listed m rest → Sound m (failure_ids rest)
  unfolding failure_ids elem
  failure_ids-Sound [] l k e = cc
  failure_ids-Sound ((j, r) ∷ rest) (found, l) k e = elim (Bool-cases (is_failure r.status)) [
    | inl bad ↦ elim (Bool-cases (j == k)) [
      | inl same ↦ subst (Doomed m) ((eq_iff j k).0 same) (failure r found bad)
      | inr other ↦ failure_ids-Sound rest l k (ground arith)
    ]
    | inr good ↦ failure_ids-Sound rest l k (ground arith)
  ]

  elem-failure_ids :
      (rest : Dict TaskRecord) (k : String) (r : TaskRecord)
      → lookup k rest ≡ some r
      → is_failure r.status ≡ true
      → elem k (failure_ids rest) ≡ true
  unfolding failure_ids elem lookup
  elem-failure_ids [] k r e b = cc
  elem-failure_ids ((j, s) ∷ rest) k r e b = ground (arith, eq_iff j k, elem-failure_ids rest k r)

  Pairs-refl : (rest : Dict TaskRecord) (xs : List String) → Pairs (Fate m now xs) rest rest
  Pairs-refl [] xs = tt
  Pairs-refl ((k, r) ∷ rest) xs = (refl, inl refl, Pairs-refl rest xs)

  pendings-le_length : (rest : Dict TaskRecord) → pendings rest ≤ length rest
  unfolding pendings
  pendings-le_length [] = omega arith
  pendings-le_length ((k, r) ∷ rest) = ground (arith, pendings-le_length rest)

  Pairs-lookup :
      (xs : List String) (m0 m1 : Dict TaskRecord) (k : String) (r : TaskRecord)
      → Pairs (Fate m now xs) m0 m1
      → Unblocked xs m1
      → lookup k m0 ≡ some r
      → (r' : TaskRecord) × (lookup k m1 ≡ some r')
        × Fate m now xs k r r'
        × (is_blocked xs r' ≡ false)
  unfolding lookup
  Pairs-lookup xs [] [] k r h u e = cc
  Pairs-lookup xs [] (x ∷ m1) k r h u e = absurd h
  Pairs-lookup xs (x ∷ m0) [] k r h u e = absurd h
  Pairs-lookup xs ((j, s) ∷ m0) ((j', s') ∷ m1) k r (q, f, h) (b, u) e =
      elim (Bool-cases (j == k)) [
        | inl same ↦
            let here : s ≡ r = ground arith in
            (
              s',
              ground (arith, eq_iff j k),
              subst (λ x. Fate m now xs x r s') ((eq_iff j k).0 same)
                  (subst (λ x. Fate m now xs j x s') here f),
              b,
            )
        | inr other ↦
            let (r', e', g, c) = Pairs-lookup xs m0 m1 k r h u (ground arith) in
            (r', ground (arith, eq_iff j k), g, c)
      ]

  Pairs-keys :
      (xs : List String) (m0 m1 : Dict TaskRecord) → Pairs (Fate m now xs) m0 m1 → keys m1 ≡ keys m0
  unfolding keys
  Pairs-keys xs [] [] h = refl
  Pairs-keys xs [] (x ∷ m1) h = absurd h
  Pairs-keys xs (x ∷ m0) [] h = absurd h
  Pairs-keys xs ((j, s) ∷ m0) ((j', s') ∷ m1) (q, f, h) = cc (Pairs-keys xs m0 m1 h)

  skip_blocked-Ended : is_distinct (keys m) ≡ true → Ended (failure_ids m) (skip_blocked now m)
  unfolding skip_blocked
  skip_blocked-Ended u =
      let l = Listed-of_distinct m u (λ k r e. e) in
      sweeps-Ended (suc (length m)) (failure_ids m) m l (failure_ids-Sound m l) (Pairs-refl m _)
        (omega (arith, pendings-le_length m))

any-of_elem :
    (p : String → Bool) (xs : List String) (x : String)
    → elem x xs ≡ true
    → p x ≡ true
    → any p xs ≡ true
unfolding any elem
any-of_elem p [] x h e = cc
any-of_elem p (y ∷ xs) x h e = ground (arith, eq_iff y x, any-of_elem p xs x)

module _ (m : Dict TaskRecord) (now : Clock) (u : is_distinct (keys m) ≡ true) where
  Doomed-elem : {k : String} → Doomed m k → elem k (skip_blocked-Ended m now u).final ≡ true
  unfolding is_blocked
  Doomed-elem {k} (failure r e b) =
      (skip_blocked-Ended m now u).grows k (elem-failure_ids m now m k r e b)
  Doomed-elem {k} (dependent {d = d} r e pend dep doom) =
      let out = skip_blocked-Ended m now u in
      let bad = Doomed-elem doom in
      let (r', e', f, b) = Pairs-lookup m now out.final m _ k r out.pairs out.calm e in
      elim f [
        | inl same ↦ absurd (ground (arith, any-of_elem (λ d. elem d out.final) (deps r) d dep bad))
        | inr (_, _, _, inside) ↦ inside
      ]

  Doomed-is_blocked :
      {k : String} (r : TaskRecord)
      → Doomed m k
      → lookup k m ≡ some r
      → is_pending r.status ≡ true
      → is_blocked (skip_blocked-Ended m now u).final r ≡ true
  unfolding is_blocked
  Doomed-is_blocked r (failure t f b) e pend =
      let same : t ≡ r = ground arith in absurd (ground arith)
  Doomed-is_blocked r (dependent {d = d} t f p dep doom) e pend =
      let same : t ≡ r = ground arith in
      let out = skip_blocked-Ended m now u in
      ground
        (arith, any-of_elem (λ x. elem x out.final) (deps r) d (rw same at dep) (Doomed-elem doom))

  -- `_skip_blocked` ends; it skips exactly the pending tasks that depend, directly or through
  -- pending tasks, on a failed task, and changes no other record.
  pub skip_blocked_lem :
      (k : String) (r : TaskRecord)
      → lookup k m ≡ some r
      → (is_pending r.status ≡ true
          → Doomed m k
          → lookup k (skip_blocked now m) ≡ some (skipped_by now k r))
        × (¬ ((is_pending r.status ≡ true) × Doomed m k) → lookup k (skip_blocked now m) ≡ some r)
  skip_blocked_lem k r e =
      let out = skip_blocked-Ended m now u in
      let (r', e', f, b) = Pairs-lookup m now out.final m _ k r out.pairs out.calm e in
      elim f [
        | inl same ↦ (
          λ pend doom. absurd (ground (arith, Doomed-is_blocked r doom e pend)),
          λ _. ground arith,
        )
        | inr (pend, doom, skipped, _) ↦ (λ _ _. ground arith, λ n. absurd (n (pend, doom)))
      ]

  pub skip_blocked-Evolves : Evolves Never m (skip_blocked now m)
  skip_blocked-Evolves =
      let out = skip_blocked-Ended m now u in
      record {
        same_keys = Pairs-keys m now out.final m _ out.pairs;
        each = λ k r e.
            let (r', e', f, _) = Pairs-lookup m now out.final m _ k r out.pairs out.calm e in
            (r', e', Fate-IsStep out.final k r r' f);
      }
    where
      Fate-IsStep :
          (xs : List String) (k : String) (r r' : TaskRecord)
          → Fate m now xs k r r'
          → IsStep Never r r'
      Fate-IsStep xs k r r' (inl e) = subst (IsStep Never r) (sym e) (IsStep-refl Never r)
      Fate-IsStep xs k r r' (inr (pend, doom, e, _)) =
          subst (IsStep Never r) (sym e)
            (record { same_spec = refl; kept = λ t. ground arith; started = λ t. cc })
