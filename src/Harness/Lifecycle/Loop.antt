-- ===== src/Harness/Lifecycle/Loop.antt =====
-- The loop of `lifecycle_invariant` in src/aegisrun/harness/invariants.py.
use equi_seek.Prelude.{◌≡◌, refl, List, [], ◌∷◌, ◌++◌, arith, inl, inr, subst}
use equi_seek.Harness.Checked.{Checked, ok, ◌>>=◌, Checked-cases}
use equi_seek.Harness.Events.{AgentEvent}
use equi_seek.Harness.Lifecycle.State.{Lifecycle, kind_of, initial}
use equi_seek.Harness.Lifecycle.Handlers.{handle}

unfoldable pub run : Lifecycle → List AgentEvent → Checked Lifecycle
run s [] = ok s
run s (e ∷ es) = handle (kind_of e.event_type) s e >>= λ s'. run s' es

unfoldable pub lifecycle_invariant : List AgentEvent → Checked (Unit {0})
lifecycle_invariant events = run initial events >>= λ s. ok tt

-- the events before a point of an accepted stream are accepted
pub run-append :
    (s s'' : Lifecycle) (es fs : List AgentEvent)
    → run s (es ++ fs) ≡ ok s''
    → (s' : Lifecycle) × (run s es ≡ ok s') × (run s' fs ≡ ok s'')
unfolding run ◌>>=◌
run-append s s'' [] fs h = (s, refl, h)
run-append s s'' (e ∷ es) fs h = elim (Checked-cases (handle (kind_of e.event_type) s e)) [
  | inl (t, eq) ↦
      let (s', first, second) =
        run-append t s'' es fs (subst (λ c. (c >>= λ u. run u (es ++ fs)) ≡ ok s'') eq h) in
      (s', rw eq first, second)
  | inr (o, m, eq) ↦ absurd (ground arith)
]

-- an accepted stream ends in a state
pub lifecycle_invariant_accepts :
    (es : List AgentEvent)
    → lifecycle_invariant es ≡ ok tt
    → (s : Lifecycle) × (run initial es ≡ ok s)
unfolding lifecycle_invariant ◌>>=◌
lifecycle_invariant_accepts es h = elim (Checked-cases (run initial es)) [
  | inl (s, eq) ↦ (s, eq)
  | inr (o, m, eq) ↦ absurd (ground arith)
]
