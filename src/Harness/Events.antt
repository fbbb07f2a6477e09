-- ===== src/Harness/Events.antt =====
-- `AgentEvent` of src/aegisrun/harness/events.py, as the invariants read it, and `_identity` of
-- src/aegisrun/harness/invariants.py. The payload is frozen JSON: a `dict` and, below it, values.
use Prim.Native.String.{◌++◌}
use Prim.Native.Nat.{◌^◌, ◌/◌, ◌%◌}
use equi_seek.Prelude.{
  ℕ, ◌+◌, ◌-◌, ◌*◌, String, ◌==◌, Bool, false, not, ◌&&◌, ◌||◌, Option, none, some, nat_eq, leb,
  if◌then◌else◌,
}
use equi_seek.Dict.{Dict, lookup}
use equi_seek.Data.Json.{Value}
use equi_seek.Harness.Checked.{Checked, ok, violated}

pub record EventSource : Type 0 where
  pub kind : String
  pub actor_id : Option String
  pub form : Option String

pub record AgentEvent : Type 0 where
  pub run_id : String
  pub session_id : String
  pub seq : ℕ
  pub event_type : String
  pub schema_version : ℕ
  pub created_at : String
  pub source : EventSource
  pub payload : Dict Value
  pub parent_session_id : Option String
  pub turn_id : Option String
  pub step_id : Option String
  pub task_id : Option String

-- `value == other` for an optional text and a text
abbrev pub is_text : Option String → String → Bool
is_text none t = false
is_text (some s) t = s == t

-- the text of the value, if it is a non-empty one
abbrev as_identity : Option Value → Option String
as_identity (some (Value.str s)) = if s == "" then none else some s
as_identity _ = none

abbrev or_missing : Option String → String → String → Checked String
or_missing (some s) key owner = ok s
or_missing none key owner = violated owner ("event is missing " ++ key)

-- `_identity`
unfoldable pub identity : Dict Value → (key owner : String) → Checked String
identity payload key owner = or_missing (as_identity (lookup key payload)) key owner

-- A double of the given bits equals the number: sign, exponent and fraction are read off.
unfoldable pub float_equals : (bits n : ℕ) → Bool
float_equals bits n =
    let fraction = bits % 2 ^ 52 in
    let exponent = bits / 2 ^ 52 % 2 ^ 11 in
    let negative = nat_eq (bits / 2 ^ 63) 1 in
    if nat_eq exponent 0
    then nat_eq fraction 0 && nat_eq n 0
    else if nat_eq exponent 2047 || negative
    then false
    else if leb 1075 exponent
    then nat_eq ((2 ^ 52 + fraction) * 2 ^ (exponent - 1075)) n
    else nat_eq (2 ^ 52 + fraction) (n * 2 ^ (1075 - exponent))

-- Python's `value == n` for a JSON value and a natural number: `True == 1` and `1.0 == 1` hold.
unfoldable pub equals_number : Value → ℕ → Bool
unfolding float_equals
equals_number (Value.int negative m) n = nat_eq m n && (not negative || nat_eq m 0)
equals_number (Value.bool b) n = nat_eq (if b then 1 else 0) n
equals_number (Value.float bits) n = float_equals bits n
equals_number _ n = false
