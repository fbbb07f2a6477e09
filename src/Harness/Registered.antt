-- ===== src/Harness/Registered.antt =====
-- What `InvariantRegistry` of src/aegisrun/harness/invariants.py promises.
use equi_seek.Prelude.{
  ◌+◌, sym, ◌∙◌, ◌&&◌, String, ◌==◌, eq_iff, eq_refl, ◌≡◌, ◌≢◌, refl, false, ◌||◌, Option, none,
  some, List, [], ◌∷◌, elem, arith, inl, inr, Bool-cases, subst, ap,
}
use equi_seek.Dict.{Dict, lookup, insert, erase, keys, lookup-insert}
use equi_seek.Data.Text.{strip}
use equi_seek.Harness.Checked.{Checked, ok, violated, ◌>>=◌}
use equi_seek.Harness.Events.{AgentEvent}
use equi_seek.Harness.Session.{session_invariant}
use equi_seek.Harness.Surface.{surface_invariant}
use equi_seek.Harness.Lifecycle.{lifecycle_invariant}
use equi_seek.Harness.Registry.{
  Outcome, Registration, is_registration, InvariantRegistry, Handle, register, dispose, validate,
  validate_all, settle, as_outcome, added, new_handle, default_invariants, and_register,
}

-- a key that is not in the dict is added and removed again
erase-absent : (k : String) (m : Dict Registration) → elem k (keys m) ≡ false → erase k m ≡ m
unfolding erase elem keys
erase-absent k [] h = refl
erase-absent k ((j, v) ∷ m) h = ground (arith, erase-absent k m)

erase-insert :
    (k : String) (v : Registration) (m : Dict Registration)
    → elem k (keys m) ≡ false
    → erase k (insert k v m) ≡ m
unfolding erase insert elem keys
erase-insert k v [] h = ground (arith, eq_refl k)
erase-insert k v ((j, w) ∷ m) h = ground (arith, erase-insert k v m)

-- Registering a check and disposing of the registration gives back the registrations as they were.
pub dispose-register :
    (owner : String) (check : List AgentEvent → Outcome) (r r' : InvariantRegistry) (h : Handle)
    → register owner check r ≡ some (r', h)
    → (dispose h r').0.registrations ≡ r.registrations
unfolding register dispose
dispose-register owner check r r' h e =
    elim (Bool-cases (strip owner == "" || elem owner (keys r.registrations))) [
      | inl refused ↦ absurd (ground arith)
      | inr fresh ↦
          let made : (added owner check r, new_handle owner r) ≡ (r', h) = ground arith in
          subst
            (λ (p : InvariantRegistry × Handle).
              (dispose p.1 p.0).0.registrations ≡ r.registrations)
            made
            (ground (
              arith,
              eq_refl owner,
              lookup-insert owner owner
                  (record { owner = owner; check = check; token = r.next_token }) r.registrations,
              erase-insert owner (record { owner = owner; check = check; token = r.next_token })
                  r.registrations,
            ))
    ]

register_lem :
    (owner : String) (check : List AgentEvent → Outcome) (r r' : InvariantRegistry) (h : Handle)
    → register owner check r ≡ some (r', h)
    → (r' ≡ added owner check r) × (h ≡ new_handle owner r)
unfolding register
register_lem owner check r r' h e =
    elim (Bool-cases (strip owner == "" || elem owner (keys r.registrations))) [
      | inl refused ↦ absurd (ground arith)
      | inr fresh ↦
          let made : (r', h) ≡ (added owner check r, new_handle owner r) = ground arith in
          (
            ap (λ (p : InvariantRegistry × Handle). p.0) made,
            ap (λ (p : InvariantRegistry × Handle). p.1) made,
          )
    ]

dispose-next_token :
    (h : Handle) (r : InvariantRegistry) → (dispose h r).0.next_token ≡ r.next_token
unfolding dispose
dispose-next_token h r =
    elim (Bool-cases (h.active && is_registration (lookup h.owner r.registrations) h.token)) [
      | inl b ↦ rw b refl
      | inr b ↦ rw b refl
    ]

-- a handle is used up, whatever it was disposed of in
dispose_used : (h : Handle) (r s : InvariantRegistry) → (dispose (dispose h r).1 s).0 ≡ s
unfolding dispose
dispose_used h r s = refl

-- a registration with another token stays
dispose_stale :
    (h : Handle) (owner : String) (check : List AgentEvent → Outcome) (r : InvariantRegistry)
    → h.owner ≡ owner
    → r.next_token ≢ h.token
    → (dispose h (added owner check r)).0 ≡ added owner check r
unfolding dispose
dispose_stale h owner check r same other =
    let x : Registration = record { owner = owner; check = check; token = r.next_token } in
    let found = lookup-insert owner h.owner x r.registrations in
    let stays : (h.active
          && is_registration (lookup h.owner (insert owner x r.registrations)) h.token)
        ≡ false =
      ground (arith, found, same, eq_refl owner, eq_iff owner h.owner, other) in
    rw stays refl

-- Let an owner register a check, dispose of it and register another one. Then the disposed handle removes
-- nothing from any state of the registry, the state of that handle from before would not remove the second
-- registration, and disposing of the second handle gives back the registrations from before both.
pub dispose_again :
    (owner : String) (check check' : List AgentEvent → Outcome) (r r' r'' later : InvariantRegistry)
    (h h' : Handle)
    → register owner check r ≡ some (r', h)
    → register owner check' (dispose h r').0 ≡ some (r'', h')
    → ((dispose (dispose h r').1 later).0 ≡ later)
      × ((dispose h r'').0 ≡ r'')
      × ((dispose h' r'').0.registrations ≡ r.registrations)
dispose_again owner check check' r r' r'' later h h' first second =
    let (is_added, is_new) = register_lem owner check r r' h first in
    let (is_added', is_new') = register_lem owner check' (dispose h r').0 r'' h' second in
    let token : (dispose h r').0.next_token ≡ r.next_token + 1 =
      dispose-next_token h r' ∙ ap (λ (x : InvariantRegistry). x.next_token) is_added in
    let before : h.token ≡ r.next_token = ap (λ (x : Handle). x.token) is_new in
    (
      dispose_used h r' later,
      subst (λ (x : InvariantRegistry). (dispose h x).0 ≡ x) (sym is_added')
          (dispose_stale h owner check' (dispose h r').0 (ap (λ (x : Handle). x.owner) is_new)
            (λ e. omega (arith, token, before, e))),
      dispose-register owner check' (dispose h r').0 r'' h' second
          ∙ dispose-register owner check r r' h first,
    )

in_order :
    (x y z : Checked (Unit {0})) (o o' o'' : String)
    → (settle o (as_outcome x) >>= λ a.
        (settle o' (as_outcome y) >>= λ b. (settle o'' (as_outcome z) >>= λ c. ok tt)))
      ≡ (x >>= λ a. (y >>= λ b. z))
unfolding settle as_outcome ◌>>=◌
in_order (ok a) (ok b) (ok c) o o' o'' = refl
in_order (ok a) (ok b) (violated p m) o o' o'' = refl
in_order (ok a) (violated p m) z o o' o'' = refl
in_order (violated p m) y z o o' o'' = refl

-- the verdict of the default registry
abbrev pub verdict : List AgentEvent → Option InvariantRegistry → Option (Checked (Unit {0}))
verdict es none = none
verdict es (some r) = some (validate es r)

-- The default registry is built without an error, and validating runs the session, the lifecycle and
-- the surface check in this order and raises what the first failing one raises.
pub default_invariants_lem :
    (es : List AgentEvent)
    → verdict es default_invariants
      ≡ some (session_invariant es >>= λ a. (lifecycle_invariant es >>= λ b. surface_invariant es))
unfolding default_invariants and_register register validate validate_all elem keys insert strip
default_invariants_lem es = ap some (
    in_order (session_invariant es) (lifecycle_invariant es) (surface_invariant es) "session"
      "lifecycle" "surface")
