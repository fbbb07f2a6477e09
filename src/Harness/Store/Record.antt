-- ===== src/Harness/Store/Record.antt =====
-- `to_dict` and `from_dict` of `EventSource` and `AgentEvent` in src/aegisrun/harness/events.py.
use equi_seek.Prelude.{ℕ, String, ◌==◌, Bool, false, ◌||◌, Option, none, some, if◌then◌else◌}
use equi_seek.Data.Json.{Value, Fields}
use equi_seek.Harness.Checked.{Checked, ok, violated, ◌>>=◌}
use equi_seek.Harness.Events.{EventSource, AgentEvent}
use equi_seek.Harness.Store.Json.{Interpreter, get, fields_of}
use equi_seek.Harness.Store.Make.{make_source, make_event}

-- `if item is not None: value[name] = item`
abbrev pub optional_field : String → Option String → Fields → Fields
optional_field name none rest = rest
optional_field name (some s) rest = Fields.field name (Value.str s) rest

unfoldable pub source_to_dict : EventSource → Fields
source_to_dict s =
    Fields.field "kind" (Value.str s.kind)
      (optional_field "actor_id" s.actor_id (optional_field "form" s.form Fields.end))

unfoldable pub to_dict : AgentEvent → Fields
to_dict e = Fields.field "run_id" (Value.str e.run_id) (
    Fields.field "session_id" (Value.str e.session_id) (
      Fields.field "seq" (Value.int false e.seq) (
        Fields.field "event_type" (Value.str e.event_type) (
          Fields.field "schema_version" (Value.int false e.schema_version) (
            Fields.field "created_at" (Value.str e.created_at) (
              Fields.field "source" (Value.obj (source_to_dict e.source)) (
                Fields.field "payload" (Value.obj (fields_of e.payload)) (
                  optional_field "parent_session_id" e.parent_session_id (
                    optional_field "turn_id" e.turn_id (
                      optional_field "step_id" e.step_id
                        (optional_field "task_id" e.task_id Fields.end)))))))))))

-- a negative number is refused like 0
abbrev pub at_least_zero : Bool × ℕ → ℕ
at_least_zero (negative, n) = if negative then 0 else n

abbrev pub corrupted : {A : Type 0} → String → Checked A
corrupted message = violated "EventCorruptionError" message

-- `except (KeyError, TypeError, ValueError)`, where `EventError` is a `ValueError`
unfoldable pub malformed : {A : Type 0} → Checked A → Checked A
malformed (ok a) = ok a
malformed (violated owner message) =
    if owner == "KeyError" || owner == "TypeError" || owner == "ValueError" || owner == "EventError"
    then corrupted "persisted event is malformed"
    else violated owner message

module _ (I : Interpreter) where
  open I use {str, int}

  -- `str(value[key])`
  abbrev pub required_text : Option Value → Checked String
  required_text none = violated "KeyError" ""
  required_text (some v) = ok (str v)

  abbrev pub required_int : Option Value → Checked ℕ
  required_int none = violated "KeyError" ""
  required_int (some v) = int v >>= λ n. ok (at_least_zero n)

  -- `_optional_string`
  unfoldable pub optional_string : Option Value → Option String
  optional_string none = none
  optional_string (some Value.null) = none
  optional_string (some v) = some (str v)

  unfoldable pub source_from_dict : Fields → Checked EventSource
  source_from_dict fs = required_text (get "kind" fs) >>= λ kind. make_source (record {
    kind = kind;
    actor_id = optional_string (get "actor_id" fs);
    form = optional_string (get "form" fs);
  })

  -- the call of the constructor: its arguments from left to right
  unfoldable pub read_event : Fields → Fields → Fields → Checked AgentEvent
  read_event fs source payload = required_text (get "run_id" fs) >>= λ run_id.
      required_text (get "session_id" fs) >>= λ session_id. required_int (get "seq" fs) >>= λ seq.
      required_text (get "event_type" fs) >>= λ event_type.
      required_int (get "schema_version" fs) >>= λ schema_version.
      required_text (get "created_at" fs) >>= λ created_at. source_from_dict source >>= λ made.
      make_event I (record {
        run_id = run_id;
        session_id = session_id;
        seq = seq;
        event_type = event_type;
        schema_version = schema_version;
        created_at = created_at;
        source = made;
        payload = Value.obj payload;
        parent_session_id = optional_string (get "parent_session_id" fs);
        turn_id = optional_string (get "turn_id" fs);
        step_id = optional_string (get "step_id" fs);
        task_id = optional_string (get "task_id" fs);
      })

  abbrev pub from_parts : Fields → Option Value → Option Value → Checked AgentEvent
  from_parts fs (some (Value.obj source)) (some (Value.obj payload)) =
      malformed (read_event fs source payload)
  from_parts fs source payload = corrupted "event source and payload must be objects"

  unfoldable pub from_dict : Fields → Checked AgentEvent
  from_dict fs = from_parts fs (get "source" fs) (get "payload" fs)
