-- ===== src/Harness/Registry.antt =====
-- `InvariantRegistry` and `default_invariants` of src/aegisrun/harness/invariants.py. A registration
-- is an object: its identity is a number that no other registration of the registry gets.
use equi_seek.Prelude.{
  ℕ, ◌+◌, String, ◌==◌, Bool, true, false, ◌&&◌, ◌||◌, Option, none, some, List, [], ◌∷◌, elem,
  nat_eq, if◌then◌else◌,
}
use equi_seek.Dict.{Dict, lookup, insert, erase, keys}
use equi_seek.Data.Text.{strip}
use equi_seek.Harness.Checked.{Checked, ok, violated, ◌>>=◌}
use equi_seek.Harness.Events.{AgentEvent}
use equi_seek.Harness.Session.{session_invariant}
use equi_seek.Harness.Surface.{surface_invariant}
use equi_seek.Harness.Lifecycle.{lifecycle_invariant}

-- how a check ends: it returns, raises `InvariantError`, or raises another exception
pub data Outcome : Type 0 where
  passed : Outcome
  broken : (owner message : String) → Outcome
  crashed : (text : String) → Outcome

pub record Registration : Type 0 where
  pub owner : String
  pub check : List AgentEvent → Outcome
  pub token : ℕ

pub record InvariantRegistry : Type 0 where
  pub registrations : Dict Registration
  pub next_token : ℕ

-- the variables that `dispose` closes over
pub record Handle : Type 0 where
  pub owner : String
  pub token : ℕ
  pub active : Bool

abbrev pub empty_registry : InvariantRegistry
empty_registry = record { registrations = []; next_token = 0 }

-- `none` stands for the `ValueError`
-- the registration of a new check, and its handle
abbrev pub added : String → (List AgentEvent → Outcome) → InvariantRegistry → InvariantRegistry
added owner check r = record {
  registrations =
      insert owner (record { owner = owner; check = check; token = r.next_token }) r.registrations;
  next_token = r.next_token + 1;
}

abbrev pub new_handle : String → InvariantRegistry → Handle
new_handle owner r = record { owner = owner; token = r.next_token; active = true }

-- `none` stands for the `ValueError`
unfoldable pub register :
    (owner : String)
    → (List AgentEvent → Outcome)
    → InvariantRegistry
    → Option (InvariantRegistry × Handle)
register owner check r =
    if strip owner == "" || elem owner (keys r.registrations)
    then none
    else some (added owner check r, new_handle owner r)

-- `self._registrations.get(owner) is registration`
abbrev pub is_registration : Option Registration → ℕ → Bool
is_registration none token = false
is_registration (some x) token = nat_eq x.token token

unfoldable pub dispose : Handle → InvariantRegistry → InvariantRegistry × Handle
dispose h r = (
  (if h.active && is_registration (lookup h.owner r.registrations) h.token
      then record r { registrations = erase h.owner r.registrations }
      else r),
  record h { active = false },
)

-- the `try` of `validate`
unfoldable pub settle : String → Outcome → Checked (Unit {0})
settle owner Outcome.passed = ok tt
settle owner (Outcome.broken o m) = violated o m
settle owner (Outcome.crashed text) = violated owner text

unfoldable pub validate_all : List AgentEvent → Dict Registration → Checked (Unit {0})
validate_all events [] = ok tt
validate_all events ((o, x) ∷ rest) =
    settle x.owner (x.check events) >>= λ done. validate_all events rest

unfoldable pub validate : List AgentEvent → InvariantRegistry → Checked (Unit {0})
validate events r = validate_all events r.registrations

-- a check of this package raises nothing but `InvariantError`
unfoldable pub as_outcome : Checked (Unit {0}) → Outcome
as_outcome (ok done) = Outcome.passed
as_outcome (violated o m) = Outcome.broken o m

-- registers, and forgets the handle
unfoldable pub and_register :
    (owner : String)
    → (List AgentEvent → Outcome)
    → Option InvariantRegistry
    → Option InvariantRegistry
and_register owner check none = none
and_register owner check (some r) = elim (register owner check r) [
  | none ↦ none
  | some (r', h) ↦ some r'
]

unfoldable pub default_invariants : Option InvariantRegistry
default_invariants =
    and_register "surface" (λ es. as_outcome (surface_invariant es))
      (and_register "lifecycle" (λ es. as_outcome (lifecycle_invariant es))
        (and_register "session" (λ es. as_outcome (session_invariant es)) (some empty_registry)))
