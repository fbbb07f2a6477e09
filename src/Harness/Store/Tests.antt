-- ===== src/Harness/Store/Tests.antt =====
-- An interpreter that keeps values as they are, and a store with one event in its file.
use equi_seek.Prelude.{
  String, ◌≡◌, ◌≢◌, true, false, refl, sym, ap, arith, List, [], ◌∷◌, ◌++◌, none, some, ◌+◌, length,
  Bool, ℕ,
}
use mathlib.Core.Option
use equi_seek.Data.Json.{Value, Fields}
use equi_seek.Harness.Checked.{Checked, ok, violated, demand, ◌>>=◌}
use equi_seek.Harness.Events.{AgentEvent, EventSource}
use equi_seek.Dict.{lookup, insert, erase, keys}
use equi_seek.Prelude.{elem}
use equi_seek.Data.Text.{strip}
use equi_seek.Harness.Lifecycle.{kind_of, handle, run, lifecycle_invariant}
use equi_seek.Harness.Session.{session_invariant, session_from}
use equi_seek.Harness.Surface.{surface_invariant, check_event}
use equi_seek.Harness.Registry.{
  default_invariants, validate, validate_all, settle, as_outcome, and_register, register,
}
use equi_seek.Harness.Store.Json.{Interpreter, JsonLaws, get, fields_of, dict_of}
use equi_seek.Harness.Store.Make.{
  make_event, make_source, is_safe_id, is_event_type, to_slash, type_chars, id_chars, snapshot,
}
use equi_seek.Harness.Store.Record.{
  to_dict, source_to_dict, from_dict, read_event, source_from_dict, malformed, optional_string,
}
use equi_seek.Harness.Store.Log.{
  File, is_dangling, read_record, read_records, load_sync, append_sync,
}
use equi_seek.Harness.Store.Append.{
  EventStore, Request, Cancellation, append_now, open_store, fresh_events, load, append, append_to,
}
use equi_seek.Harness.Store.Synced.{IsSynced}
use equi_seek.Harness.Store.Outcomes.{IsLeft, append-fresh_events, append_refused, append-IsSynced}

abbrev text_of : Value → String
text_of (Value.str s) = s
text_of v = ""

abbrev int_of : Value → Checked (Bool × ℕ)
int_of (Value.int negative n) = ok (negative, n)
int_of v = violated "ValueError" ""

some-injective : (v w : Value) → some v ≡ some w → v ≡ w
some-injective v w e = cc

abbrev plain : Interpreter
plain = record {
  Text = Value;
  Bytes = Value;
  dumps = some;
  loads = some;
  encode = some;
  decode = some;
  size = λ v. 1;
  joined = λ a b. b;
  str = text_of;
  int = int_of;
}

get_plain : (k : String) (fs : Fields) → get k fs ≡ Option.map (λ (v : Value). v) (get k fs)
get_plain k fs = elim (get k fs) as (λ o. o ≡ Option.map (λ (v : Value). v) o) [
  | none ↦ refl
  | some v ↦ refl
]

abbrev plain-JsonLaws : JsonLaws plain
plain-JsonLaws = record {
  canonical = λ v. v;
  canonical_fields = λ fs. fs;
  loads_dumps = λ v t e. ap some (sym (some-injective v t e));
  dumps_canonical = λ v t e. e;
  decode_encode = λ t b e. ap some (sym (some-injective t b e));
  encoded_size = λ v t b e f. omega arith;
  canonical_str = λ s. refl;
  canonical_int = λ negative n. refl;
  canonical_obj = λ fs. refl;
  get_canonical = get_plain;
  canonical_canonical = λ v. refl;
  str_str = λ s. refl;
  int_int = λ n. refl;
}

abbrev a_source : EventSource
a_source = record { kind = "user"; actor_id = some "a-1"; form = none }

abbrev a_request : Request
a_request = record {
  event_type = "note/added";
  payload = Value.obj (Fields.field "text" (Value.str "hello") Fields.end);
  created_at = "2026-01-01T00:00:00+00:00";
  source = a_source;
  parent_session_id = none;
  turn_id = some "turn-1";
  step_id = none;
  task_id = none;
}

abbrev event_at : ℕ → AgentEvent
event_at n = record {
  run_id = "run";
  session_id = "run";
  seq = n;
  event_type = "note/added";
  schema_version = 1;
  created_at = "2026-01-01T00:00:00+00:00";
  source = a_source;
  payload = ("text", Value.str "hello") ∷ [];
  parent_session_id = none;
  turn_id = some "turn-1";
  step_id = none;
  task_id = none;
}

abbrev a_store : EventStore plain
a_store =
    open_store plain (File.regular (Value.obj (to_dict (event_at 1)) ∷ []) none) "run" none
      default_invariants

a_source-made : make_source a_source ≡ ok a_source
unfolding make_source demand is_safe_id id_chars
a_source-made = refl

a_store-IsSynced : IsSynced plain plain-JsonLaws a_store
unfolding open_store
a_store-IsSynced = (refl, λ events held. absurd (cc))

abbrev after : EventStore plain
after = record a_store {
  file =
      File.regular (Value.obj (to_dict (event_at 1)) ∷ Value.obj (to_dict (event_at 2)) ∷ []) none;
  events = some (event_at 1 ∷ event_at 2 ∷ []);
}

appended : append plain Cancellation.never a_request a_store ≡ (ok (event_at 2), after)
unfolding append append_now load fresh_events load_sync read_records read_record from_dict
    read_event source_from_dict optional_string malformed make_event make_source is_safe_id
    is_event_type to_slash type_chars id_chars snapshot demand ◌>>=◌ get fields_of dict_of to_dict
    source_to_dict append_to append_sync open_store validate validate_all settle as_outcome
    default_invariants and_register register strip elem keys lifecycle_invariant run handle kind_of
    session_invariant session_from surface_invariant check_event lookup insert erase
appended = refl

-- a second event is written after the first
append-fresh_events_example :
    (es : List AgentEvent) × (fresh_events plain a_store ≡ ok es)
    × ((event_at 2).seq ≡ length es + 1)
    × (is_dangling plain after.file ≡ false)
    × (fresh_events plain after ≡ ok (es ++ (event_at 2 ∷ [])))
    × (after.events ≡ some (es ++ (event_at 2 ∷ [])))
append-fresh_events_example =
    append-fresh_events plain plain-JsonLaws Cancellation.never a_request a_store after (event_at 2)
      a_source-made a_store-IsSynced appended

uncancelled : Cancellation.never ≢ Cancellation.during_write true
uncancelled h = cc

append-IsSynced_example :
    IsSynced plain plain-JsonLaws (append plain Cancellation.never a_request a_store).1
append-IsSynced_example =
    append-IsSynced plain plain-JsonLaws Cancellation.never a_request a_store a_source-made
      uncancelled a_store-IsSynced

-- a call that is cancelled while the second event is written
abbrev landed : EventStore plain
landed = record a_store {
  file =
      File.regular (Value.obj (to_dict (event_at 1)) ∷ Value.obj (to_dict (event_at 2)) ∷ []) none;
  events = some (event_at 1 ∷ []);
}

lost :
    append plain (Cancellation.during_write true) a_request a_store
    ≡ (violated "CancelledError" "", landed)
unfolding append append_now load fresh_events load_sync read_records read_record from_dict
    read_event source_from_dict optional_string malformed make_event make_source is_safe_id
    is_event_type to_slash type_chars id_chars snapshot demand ◌>>=◌ get fields_of dict_of to_dict
    source_to_dict append_to append_sync open_store validate validate_all settle as_outcome
    default_invariants and_register register strip elem keys lifecycle_invariant run handle kind_of
    session_invariant session_from surface_invariant check_event lookup insert erase
lost = refl

append_refused_example : IsLeft plain plain-JsonLaws (Cancellation.during_write true) a_store landed
append_refused_example =
    append_refused plain plain-JsonLaws (Cancellation.during_write true) a_request a_store landed
      "CancelledError" "" a_source-made a_store-IsSynced lost
