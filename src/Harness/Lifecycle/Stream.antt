-- ===== src/Harness/Lifecycle/Stream.antt =====
-- What a stream that `lifecycle_invariant` of src/aegisrun/harness/invariants.py accepts looks like.
use equi_seek.Prelude.{
  ℕ, ◌+◌, ◌≤◌, String, ◌≡◌, refl, Bool, true, false, ◌&&◌, List, [], ◌∷◌, ◌++◌, elem, arith, inl,
  inr, subst, Bool-cases, ap,
}
use equi_seek.Dict.{Dict, keys}
use equi_seek.Harness.Checked.{ok, Holds-ok, ◌>>=◌, Checked-cases, demand, ok-injective}
use equi_seek.Harness.Events.{AgentEvent}
use equi_seek.Harness.Lifecycle.State.{Lifecycle, Kind, kind_of, initial}
use equi_seek.Harness.Lifecycle.Handlers.{handle, is_empty}
use equi_seek.Harness.Lifecycle.Tally.{Family, sane, begun, ended, begins, ends, bit}
use equi_seek.Harness.Lifecycle.Step.{handle-Tracks, Tracks}
use equi_seek.Harness.Lifecycle.Loop.{
  run, run-append, lifecycle_invariant, lifecycle_invariant_accepts,
}

-- how many events of the stream begin the work of that id
abbrev pub begin_count : Family → String → List AgentEvent → ℕ
begin_count f id [] = 0
begin_count f id (e ∷ es) = bit (begins f (kind_of e.event_type) e id) + begin_count f id es

-- how many events of the stream end the work of that id
abbrev pub end_count : Family → String → List AgentEvent → ℕ
end_count f id [] = 0
end_count f id (e ∷ es) = bit (ends f (kind_of e.event_type) e id) + end_count f id es

-- the counts of a stream, in the state that it leads to
record Counted (f : Family) (id : String) (s s' : Lifecycle) (es : List AgentEvent) : Type 0 where
  is_sane : sane f s' id ≡ true
  all_begun : bit (begun f s' id) ≡ bit (begun f s id) + begin_count f id es
  all_ended : bit (ended f s' id) ≡ bit (ended f s id) + end_count f id es

module _ (f : Family) (id : String) where
  run-Counted :
      (s s' : Lifecycle) (es : List AgentEvent)
      → run s es ≡ ok s'
      → sane f s id ≡ true
      → Counted f id s s' es
  unfolding run ◌>>=◌
  run-Counted s s' [] h i =
      subst (λ t. Counted f id s t []) (ok-injective s s' h)
        (record { is_sane = i; all_begun = omega arith; all_ended = omega arith })
  run-Counted s s' (e ∷ es) h i = elim (Checked-cases (handle (kind_of e.event_type) s e)) [
    | inl (t, eq) ↦
        let moved =
          Holds-ok (Tracks (kind_of e.event_type) e s) (handle (kind_of e.event_type) s e) t eq
            (handle-Tracks s e (kind_of e.event_type)) f id i in
        let later =
          run-Counted t s' es (subst (λ c. (c >>= λ u. run u es) ≡ ok s') eq h) moved.stays_sane in
        record {
          is_sane = later.is_sane;
          all_begun = omega (arith, later.all_begun, moved.counts_begun);
          all_ended = omega (arith, later.all_ended, moved.counts_ended);
        }
    | inr (o, m, eq) ↦ absurd (ground arith)
  ]

-- nothing has begun before the first event
initial-sane : (f : Family) (id : String) → sane f initial id ≡ true
unfolding elem keys
initial-sane Family.tool id = refl
initial-sane f id = refl

initial-begun : (f : Family) (id : String) → begun f initial id ≡ false
unfolding elem keys
initial-begun Family.tool id = refl
initial-begun f id = refl

initial-ended : (f : Family) (id : String) → ended f initial id ≡ false
unfolding elem
initial-ended Family.tool id = refl
initial-ended f id = refl

-- what has ended has begun
sane_lem :
    (f : Family) (s : Lifecycle) (id : String)
    → sane f s id ≡ true
    → bit (ended f s id) ≤ bit (begun f s id)
sane_lem Family.continuable s id h = ground arith
sane_lem Family.followup s id h = ground arith
sane_lem f s id h = ground arith

bit_bound : (b : Bool) → bit b ≤ 1
bit_bound b = ground arith

module _ (f : Family) (id : String) (s : Lifecycle) (es : List AgentEvent) where
  counts_of :
      run initial es ≡ ok s
      → (sane f s id ≡ true)
        × (bit (begun f s id) ≡ begin_count f id es)
        × (bit (ended f s id) ≡ end_count f id es)
  counts_of h =
      let c = run-Counted f id initial s es h (initial-sane f id) in
      (
        c.is_sane,
        ground (arith, c.all_begun, initial-begun f id),
        ground (arith, c.all_ended, initial-ended f id),
      )

-- In a stream that the check accepts, at every point: each tool call, model request, one-shot child,
-- turn, step, continuable child and follow-up has begun at most once, and has ended at most as often
-- as it has begun, that is, at most once and only after it began.
pub lifecycle_invariant_orders :
    (es rest : List AgentEvent)
    → lifecycle_invariant (es ++ rest) ≡ ok tt
    → (f : Family) (id : String)
    → (end_count f id es ≤ begin_count f id es) × (begin_count f id es ≤ 1)
lifecycle_invariant_orders es rest h f id =
    let (s'', whole) = lifecycle_invariant_accepts (es ++ rest) h in
    let (s, part, _) = run-append initial s'' es rest whole in
    let (fine, opened, closed) = counts_of f id s es part in
    (
      omega (arith, opened, closed, sane_lem f s id fine),
      omega (arith, opened, bit_bound (begun f s id)),
    )

-- the work that has to be over when the session ends
abbrev pub is_within_session : Family → Bool
is_within_session Family.tool = true
is_within_session Family.model = true
is_within_session Family.turn = true
is_within_session Family.step = true
is_within_session _ = false

abbrev nothing_open : Lifecycle → Bool
nothing_open s =
    is_empty s.open_agent_turns
    && is_empty s.open_agent_steps
    && is_empty s.open_models
    && is_empty s.open_tools

session_ended_lem :
    (s s'' : Lifecycle) (e : AgentEvent) (rest : List AgentEvent)
    → kind_of e.event_type ≡ Kind.session_ended
    → run s (e ∷ rest) ≡ ok s''
    → nothing_open s ≡ true
unfolding run ◌>>=◌ demand handle
session_ended_lem s s'' e rest k h = elim (Bool-cases (nothing_open s)) [
  | inl empty ↦ empty
  | inr closed ↦
      let h' : (demand (nothing_open s) "session" "session ended with open lifecycle work" (ok s)
            >>= λ u. run u rest)
          ≡ ok s'' =
        subst (λ c. (handle c s e >>= λ u. run u rest) ≡ ok s'') k h in
      absurd (ground arith)
]

not_in_empty : (xs : List String) (id : String) → is_empty xs ≡ true → elem id xs ≡ false
unfolding elem
not_in_empty [] id h = refl
not_in_empty (x ∷ xs) id h = cc

no_key_in_empty : (d : Dict String) (id : String) → is_empty d ≡ true → elem id (keys d) ≡ false
unfolding elem keys
no_key_in_empty [] id h = refl
no_key_in_empty (x ∷ xs) id h = cc

nothing_open_lem :
    (f : Family) (s : Lifecycle) (id : String)
    → is_within_session f ≡ true
    → nothing_open s ≡ true
    → begun f s id ≡ ended f s id
nothing_open_lem Family.tool s id w h = ground (arith, not_in_empty s.open_tools id)
nothing_open_lem Family.model s id w h = ground (arith, not_in_empty s.open_models id)
nothing_open_lem Family.turn s id w h = ground (arith, not_in_empty s.open_agent_turns id)
nothing_open_lem Family.step s id w h = ground (arith, no_key_in_empty s.open_agent_steps id)
nothing_open_lem f s id w h = absurd (ground arith)

-- Where an accepted stream has the event that ends the session, every tool call, model request, turn
-- and step that began before it has ended before it.
pub lifecycle_invariant_closes :
    (es rest : List AgentEvent) (e : AgentEvent)
    → lifecycle_invariant (es ++ e ∷ rest) ≡ ok tt
    → e.event_type ≡ "session/ended"
    → (f : Family) → is_within_session f ≡ true
    → (id : String) → end_count f id es ≡ begin_count f id es
unfolding kind_of
lifecycle_invariant_closes es rest e h k f w id =
    let (s'', whole) = lifecycle_invariant_accepts (es ++ e ∷ rest) h in
    let (s, part, last) = run-append initial s'' es (e ∷ rest) whole in
    let (fine, opened, closed) = counts_of f id s es part in
    let over = nothing_open_lem f s id w (session_ended_lem s s'' e rest (rw k refl) last) in
    omega (arith, opened, closed, ap bit over)
