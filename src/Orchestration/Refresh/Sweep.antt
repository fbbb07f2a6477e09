-- ===== src/Orchestration/Refresh/Sweep.antt =====
-- One round of the loop of `_skip_blocked`, and the loop.
use equi_seek.Prelude.{
  ℕ, suc, ◌≤◌, ◌<◌, String, ◌==◌, eq_iff, ◌≡◌, refl, ◌⊎◌, inl, inr, Bool, true, false, Bool-cases,
  List, [], ◌∷◌, some, elem, any, arith, if◌then◌else◌, subst, sym,
}
use equi_seek.Dict.{Dict, lookup}
use equi_seek.Orchestration.Status.{is_pending, is_failure}
use equi_seek.Orchestration.Spec.{TaskRecord}
use equi_seek.Orchestration.Plan.{Clock}
use equi_seek.Orchestration.Dag.{deps}
use equi_seek.Orchestration.Refresh.{skip_record, is_blocked, sweep}

-- A failed task, or a pending one that depends, through pending ones, on a failed one.
pub data Doomed (m : Dict TaskRecord) : String → Type 0 where
  failure :
      {k : String} (r : TaskRecord) → lookup k m ≡ some r → is_failure r.status ≡ true → Doomed m k
  dependent :
      {k d : String} (r : TaskRecord)
      → lookup k m ≡ some r
      → is_pending r.status ≡ true
      → elem d (deps r) ≡ true
      → Doomed m d
      → Doomed m k

abbrev pub skipped_by : Clock → String → TaskRecord → TaskRecord
skipped_by = skip_record "dependency failed"

-- The record of task `k` after some rounds, beside the one before.
abbrev pub Fate : Dict TaskRecord → Clock → List String → String → TaskRecord → TaskRecord → Type 0
Fate m now failed k r r' =
    (r' ≡ r)
    ⊎ (is_pending r.status ≡ true) × Doomed m k × (r' ≡ skipped_by now k r) × (elem k failed ≡ true)

-- The two dictionaries have the same keys in the same order, with related records.
abbrev pub Pairs :
    (String → TaskRecord → TaskRecord → Type 0) → Dict TaskRecord → Dict TaskRecord → Type 0
Pairs R [] [] = Unit
Pairs R [] (x ∷ m') = ⊥
Pairs R (x ∷ m) [] = ⊥
Pairs R ((k, r) ∷ m) ((k', r') ∷ m') = (k' ≡ k) × R k r r' × Pairs R m m'

-- Each entry of the second dictionary is what `lookup` finds in the first.
abbrev pub Listed : Dict TaskRecord → Dict TaskRecord → Type 0
Listed m [] = Unit
Listed m ((k, r) ∷ rest) = (lookup k m ≡ some r) × Listed m rest

abbrev pub Unblocked : List String → Dict TaskRecord → Type 0
Unblocked failed [] = Unit
Unblocked failed ((k, r) ∷ m) = (is_blocked failed r ≡ false) × Unblocked failed m

abbrev pub Sound : Dict TaskRecord → List String → Type 0
Sound m failed = (k : String) → elem k failed ≡ true → Doomed m k

abbrev pub Includes : List String → List String → Type 0
Includes xs ys = (k : String) → elem k xs ≡ true → elem k ys ≡ true

unfoldable pub pendings : Dict TaskRecord → ℕ
pendings [] = 0
pendings ((k, r) ∷ m) = let rest = pendings m in if is_pending r.status then suc rest else rest

pub any-witness :
    (p : String → Bool) (xs : List String)
    → any p xs ≡ true
    → (x : String) × (elem x xs ≡ true) × (p x ≡ true)
unfolding any elem
any-witness p [] h = cc
any-witness p (x ∷ xs) h = elim (Bool-cases (p x)) [
  | inl e ↦ (x, ground (arith, eq_iff x x), e)
  | inr e ↦ let (y, m, q) = any-witness p xs (ground arith) in (y, ground arith, q)
]

module _ (m : Dict TaskRecord) (now : Clock) where
  Fate-mono :
      (xs ys : List String) (k : String) (r r' : TaskRecord)
      → Includes xs ys
      → Fate m now xs k r r'
      → Fate m now ys k r r'
  Fate-mono xs ys k r r' w (inl e) = inl e
  Fate-mono xs ys k r r' w (inr (a, b, c, d)) = inr (a, b, c, w k d)

  Pairs-mono :
      (xs ys : List String) (m0 m1 : Dict TaskRecord)
      → Includes xs ys
      → Pairs (Fate m now xs) m0 m1
      → Pairs (Fate m now ys) m0 m1
  Pairs-mono xs ys [] [] w h = tt
  Pairs-mono xs ys [] (x ∷ m1) w h = absurd h
  Pairs-mono xs ys (x ∷ m0) [] w h = absurd h
  Pairs-mono xs ys ((k, r) ∷ m0) ((k', r') ∷ m1) w (e, f, h) =
      (e, Fate-mono xs ys k r r' w f, Pairs-mono xs ys m0 m1 w h)

  -- a blocked record is still as it was, and its task is doomed
  blocked-Fate :
      (failed : List String) (k : String) (r r' : TaskRecord)
      → Sound m failed
      → lookup k m ≡ some r
      → Fate m now failed k r r'
      → is_blocked failed r' ≡ true
      → (r' ≡ r) × (is_pending r.status ≡ true) × Doomed m k
  unfolding is_blocked
  blocked-Fate failed k r r' sound found (inl e) b =
      let pend : is_pending r.status ≡ true = ground arith in
      let (d, dep, bad) = any-witness (λ d. elem d failed) (deps r) (ground arith) in
      (e, pend, dependent r found pend dep (sound d bad))
  blocked-Fate failed k r r' sound found (inr (a, b', c, d)) b = absurd (ground arith)

  -- What one round has done.
  pub record Swept (failed : List String) (m0 m1 : Dict TaskRecord)
      (out : Dict TaskRecord × List String × Bool) : Type 0 where
    pub pairs : Pairs (Fate m now out.1) m0 out.0
    pub sound : Sound m out.1
    pub grows : Includes failed out.1
    pub calm : out.2 ≡ false → (out.0 ≡ m1) × (out.1 ≡ failed) × Unblocked failed m1
    pub shorter : pendings out.0 ≤ pendings m1
    pub falls : out.2 ≡ true → pendings out.0 < pendings m1

  Sound-cons :
      (k : String) (failed : List String) → Doomed m k → Sound m failed → Sound m (k ∷ failed)
  unfolding elem
  Sound-cons k failed d s j e = elim (Bool-cases (k == j)) [
    | inl same ↦ subst (Doomed m) ((eq_iff k j).0 same) d
    | inr other ↦ s j (ground arith)
  ]

  pub sweep-Swept :
      (failed : List String) (m0 m1 : Dict TaskRecord)
      → Listed m m0
      → Sound m failed
      → Pairs (Fate m now failed) m0 m1
      → Swept failed m0 m1 (sweep now failed m1)
  unfolding sweep pendings elem
  sweep-Swept failed [] [] l s h = record {
    pairs = tt;
    sound = s;
    grows = λ k e. e;
    calm = λ _. (refl, refl, tt);
    shorter = omega arith;
    falls = λ e. cc;
  }
  sweep-Swept failed [] (x ∷ m1) l s h = absurd h
  sweep-Swept failed (x ∷ m0) [] l s h = absurd h
  sweep-Swept failed ((k, r) ∷ m0) ((k', r') ∷ m1) (found, l) s (e, f, h) =
      elim (Bool-cases (is_blocked failed r')) [
        | inl b ↦
            let (same, pend, doom) = blocked-Fate failed k r r' s found f b in
            let more : Includes failed (k' ∷ failed) = λ j q. ground arith in
            let sound' : Sound m (k' ∷ failed) =
              Sound-cons k' failed (subst (Doomed m) (sym e) doom) s in
            let out =
              sweep-Swept (k' ∷ failed) m0 m1 l sound'
                (Pairs-mono failed (k' ∷ failed) m0 m1 more h) in
            rw b (record {
              pairs = (
                e,
                inr (
                  pend,
                  doom,
                  ground arith,
                  subst (λ j. elem j (sweep now (k' ∷ failed) m1).1 ≡ true) e
                      (out.grows k' (ground (arith, eq_iff k' k'))),
                ),
                out.pairs,
              );
              sound = out.sound;
              grows = λ j q. out.grows j (more j q);
              calm = λ c. cc;
              shorter = ground (arith, out.shorter);
              falls = λ _. ground (arith, out.shorter);
            })
        | inr b ↦
            let out = sweep-Swept failed m0 m1 l s h in
            rw b (record {
              pairs = (e, Fate-mono failed _ k r r' out.grows f, out.pairs);
              sound = out.sound;
              grows = out.grows;
              calm = λ c. let (x, y, z) = out.calm c in (ground arith, y, (b, z));
              shorter = ground (arith, out.shorter);
              falls = λ c. ground (arith, out.falls c);
            })
      ]
