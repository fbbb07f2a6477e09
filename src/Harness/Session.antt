-- ===== src/Harness/Session.antt =====
-- `session_invariant` of src/aegisrun/harness/invariants.py.
use equi_seek.Prelude.{
  ℕ, ◌+◌, ◌-◌, ◌≤◌, String, ◌==◌, eq_iff, ◌≡◌, refl, ◌&&◌, Option, none, some, List, [], ◌∷◌,
  nat_eq, if◌then◌else◌, arith, ◌↔◌, inl, inr, Bool-cases, subst,
}
use equi_seek.Harness.Checked.{Checked, ok, demand}
use equi_seek.Harness.Events.{AgentEvent}

unfoldable pub session_from : (run session : String) → ℕ → List AgentEvent → Checked (Unit {0})
session_from run session expected [] = ok tt
session_from run session expected (e ∷ es) =
    demand (nat_eq e.seq expected) "session" "event sequence is discontinuous" (
      demand (e.run_id == run && e.session_id == session) "session"
        "event identity changed inside one stream" (session_from run session (expected + 1) es))

unfoldable pub session_invariant : List AgentEvent → Checked (Unit {0})
session_invariant [] = ok tt
session_invariant (e ∷ es) = session_from e.run_id e.session_id 1 (e ∷ es)

-- the element at a position counted from 0
unfoldable pub element {ℓ} : {A : Type ℓ} → List A → ℕ → Option A
element [] i = none
element (x ∷ xs) i = let rest = element xs (i - 1) in if nat_eq i 0 then some x else rest

pub element_found {ℓ} :
    {A : Type ℓ} (xs : List A) (i j : ℕ) (y : A)
    → element xs j ≡ some y
    → i ≤ j
    → (x : A) × (element xs i ≡ some x)
unfolding element
element_found [] i j y h l = cc
element_found (x ∷ xs) i j y h l = elim (Bool-cases (nat_eq i 0)) [
  | inl first ↦ (x, ground arith)
  | inr later ↦
      let (z, found) = element_found xs (i - 1) (j - 1) y (ground arith) (ground arith) in
      (z, ground arith)
]

-- numbered from a number on, with one run and one session
abbrev pub IsNumbered : (run session : String) → ℕ → List AgentEvent → Type 0
IsNumbered run session n es =
    (i : ℕ) (e : AgentEvent)
    → element es i ≡ some e
    → (e.seq ≡ n + i) × (e.run_id ≡ run) × (e.session_id ≡ session)

module _ (run session : String) where
  accepted_first :
      (n : ℕ) (x : AgentEvent) (xs : List AgentEvent)
      → session_from run session n (x ∷ xs) ≡ ok tt
      → (x.seq ≡ n)
        × (x.run_id ≡ run)
        × (x.session_id ≡ session)
        × (session_from run session (n + 1) xs ≡ ok tt)
  unfolding session_from demand
  accepted_first n x xs h = elim (Bool-cases (nat_eq x.seq n)) [
    | inl number ↦ elim (Bool-cases (x.run_id == run && x.session_id == session)) [
      | inl same ↦ (
        ground arith,
        ground (arith, eq_iff x.run_id run),
        ground (arith, eq_iff x.session_id session),
        ground arith,
      )
      | inr changed ↦ absurd (ground arith)
    ]
    | inr gap ↦ absurd (ground arith)
  ]

  session_from-IsNumbered :
      (n : ℕ) (es : List AgentEvent)
      → session_from run session n es ≡ ok tt
      → IsNumbered run session n es
  unfolding element
  session_from-IsNumbered n [] h i e found = cc
  session_from-IsNumbered n (x ∷ xs) h i e found =
      let (number, same_run, same_session, rest) = accepted_first n x xs h in
      elim (Bool-cases (nat_eq i 0)) [
        | inl first ↦
            let same : x ≡ e = ground arith in
            subst
              (λ (y : AgentEvent). (y.seq ≡ n + i) × (y.run_id ≡ run) × (y.session_id ≡ session))
              same (ground arith, same_run, same_session)
        | inr later ↦
            let (number', a, b) =
              session_from-IsNumbered (n + 1) xs rest (i - 1) e (ground arith) in
            (ground arith, a, b)
      ]

  tail-IsNumbered :
      (n : ℕ) (x : AgentEvent) (xs : List AgentEvent)
      → IsNumbered run session n (x ∷ xs)
      → IsNumbered run session (n + 1) xs
  unfolding element
  tail-IsNumbered n x xs h i e found =
      let (number, a, b) = h (i + 1) e (ground arith) in (ground arith, a, b)

  numbered_accepted :
      (n : ℕ) (es : List AgentEvent)
      → IsNumbered run session n es
      → session_from run session n es ≡ ok tt
  unfolding session_from demand element
  numbered_accepted n [] h = refl
  numbered_accepted n (x ∷ xs) h =
      let (number, same_run, same_session) = h 0 x refl in
      let rest = numbered_accepted (n + 1) xs (tail-IsNumbered n x xs h) in
      ground (arith, eq_iff x.run_id run, eq_iff x.session_id session)

-- the events are numbered from 1 on and have the run and the session of the first one
abbrev pub IsOneStream : List AgentEvent → Type 0
IsOneStream es =
    (first : AgentEvent) → element es 0 ≡ some first → IsNumbered first.run_id first.session_id 1 es

-- The check accepts exactly the streams whose events are numbered 1, 2, 3, ... without a gap and all
-- have the run and the session of the first one.
pub session_invariant_iff : (es : List AgentEvent) → (session_invariant es ≡ ok tt) ↔ IsOneStream es
unfolding session_invariant element
session_invariant_iff [] = (λ h first found. cc, λ h. refl)
session_invariant_iff (x ∷ xs) = (
  λ h first found.
      let same : x ≡ first = ground arith in
      subst (λ (y : AgentEvent). IsNumbered y.run_id y.session_id 1 (x ∷ xs)) same
        (session_from-IsNumbered x.run_id x.session_id 1 (x ∷ xs) h),
  λ h. numbered_accepted x.run_id x.session_id 1 (x ∷ xs) (h x refl),
)
