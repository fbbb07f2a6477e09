-- ===== src/Harness/Store/Make.antt =====
-- The constructors of `EventSource` and `AgentEvent` in src/aegisrun/harness/events.py. The owner of a
-- violation is the class of the exception.
use Prim.Native.Char.{code}
use equi_seek.Prelude.{
  ℕ, ◌-◌, String, Bool, true, false, ◌&&◌, ◌||◌, Option, none, some, leb, nat_eq, if◌then◌else◌,
}
use equi_seek.Dict.{Dict}
use equi_seek.Data.Json.{Value}
use equi_seek.Harness.Checked.{Checked, ok, violated, demand}
use equi_seek.Harness.Events.{EventSource, AgentEvent}
use equi_seek.Harness.Store.Json.{Interpreter, dict_of}

abbrev is_lower : ℕ → Bool
is_lower c = leb 97 c && leb c 122

abbrev is_digit : ℕ → Bool
is_digit c = leb 48 c && leb c 57

abbrev is_letter_or_digit : ℕ → Bool
is_letter_or_digit c = is_lower c || (leb 65 c && leb c 90) || is_digit c

-- `[A-Za-z0-9_.:-]`
abbrev is_id_char : ℕ → Bool
is_id_char c = is_letter_or_digit c || nat_eq c 95 || nat_eq c 46 || nat_eq c 58 || nat_eq c 45

-- at most so many characters of an id
unfoldable pub id_chars : ℕ → String → Bool
id_chars n String.[] = true
id_chars n (String.◌∷◌ c s) = leb 1 n && is_id_char (code c) && id_chars (n - 1) s

-- `SAFE_ID.fullmatch`
unfoldable pub is_safe_id : String → Bool
unfolding id_chars
is_safe_id String.[] = false
is_safe_id (String.◌∷◌ c s) = is_letter_or_digit (code c) && id_chars 255 s

-- `[a-z0-9-]*`
unfoldable pub type_chars : String → Bool
type_chars String.[] = true
type_chars (String.◌∷◌ c s) =
    (is_lower (code c) || is_digit (code c) || nat_eq (code c) 45) && type_chars s

abbrev type_part : String → Bool
type_part String.[] = false
type_part (String.◌∷◌ c s) = is_lower (code c) && type_chars s

unfoldable pub to_slash : String → Bool
unfolding type_chars
to_slash String.[] = false
to_slash (String.◌∷◌ c s) =
    let rest = to_slash s in
    if nat_eq (code c) 47
    then type_part s
    else (is_lower (code c) || is_digit (code c) || nat_eq (code c) 45) && rest

-- `EVENT_TYPE.fullmatch`
unfoldable pub is_event_type : String → Bool
unfolding to_slash
is_event_type String.[] = false
is_event_type (String.◌∷◌ c s) = is_lower (code c) && to_slash s

-- `value is None or SAFE_ID.fullmatch(value)`
abbrev pub is_optional_id : Option String → Bool
is_optional_id none = true
is_optional_id (some s) = is_safe_id s

abbrev pub event_error : {A : Type 0} → String → Checked A
event_error message = violated "EventError" message

unfoldable pub make_source : EventSource → Checked EventSource
make_source s = demand (is_safe_id s.kind) "EventError" "event source kind is invalid" (
    demand (is_optional_id s.actor_id) "EventError" "event source actor id is invalid"
      (demand (is_optional_id s.form) "EventError" "event source form is invalid" (ok s)))

-- what an event is made of; the payload is any JSON value
pub record Draft : Type 0 where
  pub run_id : String
  pub session_id : String
  pub seq : ℕ
  pub event_type : String
  pub schema_version : ℕ
  pub created_at : String
  pub source : EventSource
  pub payload : Value
  pub parent_session_id : Option String
  pub turn_id : Option String
  pub step_id : Option String
  pub task_id : Option String

-- the checks of `AgentEvent.__post_init__` before the payload is read
abbrev pub is_sound : Draft → Bool
is_sound d =
    is_safe_id d.run_id
    && is_safe_id d.session_id
    && leb 1 d.seq
    && leb 1 d.schema_version
    && is_event_type d.event_type
    && is_optional_id d.parent_session_id
    && is_optional_id d.turn_id
    && is_optional_id d.step_id
    && is_optional_id d.task_id

abbrev pub event_of : Draft → Dict Value → AgentEvent
event_of d payload = record {
  run_id = d.run_id;
  session_id = d.session_id;
  seq = d.seq;
  event_type = d.event_type;
  schema_version = d.schema_version;
  created_at = d.created_at;
  source = d.source;
  payload = payload;
  parent_session_id = d.parent_session_id;
  turn_id = d.turn_id;
  step_id = d.step_id;
  task_id = d.task_id;
}

-- the snapshot has to be an object
abbrev pub with_payload : Draft → Option Value → Checked AgentEvent
with_payload d (some (Value.obj fields)) = ok (event_of d (dict_of fields))
with_payload d _ = event_error "event payload must be a JSON object"

module _ (I : Interpreter) where
  open I use {Text, dumps, loads}

  abbrev pub read_back : Option Text → Option Value
  read_back none = none
  read_back (some t) = loads t

  -- `_json_snapshot`, with the two ways to fail as one
  unfoldable pub snapshot : Value → Option Value
  snapshot v = read_back (dumps v)

  unfoldable pub make_event : Draft → Checked AgentEvent
  make_event d =
      demand (is_sound d) "EventError" "invalid event" (with_payload d (snapshot d.payload))
