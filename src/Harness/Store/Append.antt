-- ===== src/Harness/Store/Append.antt =====
-- `load` and `append` of `WorkspaceEventStore` in src/aegisrun/harness/events.py. Each runs under the
-- store's lock, so one at a time; that the write of a cancelled call is over before the next call begins
-- is taken for granted.
use equi_seek.Prelude.{
  ℕ, ◌+◌, String, ◌==◌, Bool, true, false, Option, none, some, List, [], ◌∷◌, ◌++◌, length,
  if◌then◌else◌,
}
use equi_seek.Data.Json.{Value}
use equi_seek.Harness.Checked.{Checked, ok, violated, ◌>>=◌}
use equi_seek.Harness.Events.{AgentEvent, EventSource}
use equi_seek.Harness.Registry.{InvariantRegistry, validate}
use equi_seek.Harness.Store.Json.{Interpreter}
use equi_seek.Harness.Store.Make.{make_event, Draft}
use equi_seek.Harness.Store.Log.{File, load_sync, append_sync}

-- the arguments of `append`, and the time at which it is called
pub record Request : Type 0 where
  pub event_type : String
  pub payload : Value
  pub created_at : String
  pub source : EventSource
  pub parent_session_id : Option String
  pub turn_id : Option String
  pub step_id : Option String
  pub task_id : Option String

abbrev pub validated : Option InvariantRegistry → List AgentEvent → Checked (Unit {0})
validated none events = ok tt
validated (some r) events = validate events r

-- when the task of a call is cancelled: never, while it awaits the lock or the loading, or while it
-- awaits the writing, with whether the record is still written
pub data Cancellation : Type 0 where
  never : Cancellation
  before_write : Cancellation
  during_write : (lands : Bool) → Cancellation

module _ (I : Interpreter) where
  pub record EventStore : Type 0 where
    pub file : File I
    pub run_id : String
    pub session_id : String
    pub invariants : Option InvariantRegistry
    pub events : Option (List AgentEvent)

  -- `WorkspaceEventStore(path, run_id=…, session_id=…, invariants=…)`
  unfoldable pub open_store :
      File I
      → (run_id : String) → (session_id : Option String) → Option InvariantRegistry
      → EventStore
  open_store file run_id session_id invariants = record {
    file = file;
    run_id = run_id;
    session_id = elim session_id [ none ↦ run_id | some s ↦ if s == "" then run_id else s ];
    invariants = invariants;
    events = none;
  }

  unfoldable pub fresh_events : EventStore → Checked (List AgentEvent)
  fresh_events s = load_sync I s.run_id s.session_id s.file >>= λ events.
      validated s.invariants events >>= λ done. ok events

  -- `_load_locked`, with what it keeps in memory
  abbrev pub current :
      Option (List AgentEvent) → Checked (List AgentEvent) → Checked (List AgentEvent)
  current none fresh = fresh
  current (some events) fresh = ok events

  abbrev pub remembering : List AgentEvent → EventStore → EventStore
  remembering events s = record s { events = some events }

  abbrev pub loaded :
      Checked (List AgentEvent) → EventStore → Checked (List AgentEvent) × EventStore
  loaded (ok events) s = (ok events, remembering events s)
  loaded (violated owner message) s = (violated owner message, s)

  unfoldable pub load : EventStore → Checked (List AgentEvent) × EventStore
  load s = loaded (current s.events (fresh_events s)) s

  abbrev pub draft : EventStore → Request → ℕ → Draft
  draft s q seq = record {
    run_id = s.run_id;
    session_id = s.session_id;
    seq = seq;
    event_type = q.event_type;
    schema_version = 1;
    created_at = q.created_at;
    source = q.source;
    payload = q.payload;
    parent_session_id = q.parent_session_id;
    turn_id = q.turn_id;
    step_id = q.step_id;
    task_id = q.task_id;
  }

  -- the event and the file once it is written, for the events that are there
  unfoldable pub append_to : EventStore → Request → List AgentEvent → Checked (AgentEvent × File I)
  append_to s q events = make_event I (draft s q (length events + 1)) >>= λ e.
      validated s.invariants (events ++ (e ∷ [])) >>= λ done.
      append_sync I e s.file >>= λ file. ok (e, file)

  abbrev pub stored :
      List AgentEvent → Checked (AgentEvent × File I) → EventStore → Checked AgentEvent × EventStore
  stored events (ok (e, file)) s =
      (ok e, record s { file = file; events = some (events ++ (e ∷ [])) })
  stored events (violated owner message) s = (violated owner message, s)

  -- with what is left of the store where the call raises
  abbrev pub append_loaded :
      Request → Checked (List AgentEvent) × EventStore → Checked AgentEvent × EventStore
  append_loaded q (ok events, s) = stored events (append_to s q events) s
  append_loaded q (violated owner message, s) = (violated owner message, s)

  -- `append` that is not cancelled
  unfoldable pub append_now : Request → EventStore → Checked AgentEvent × EventStore
  append_now q s = append_loaded q (load s)

  abbrev pub cancelled : {A : Type 0} → Checked A
  cancelled = violated "CancelledError" ""

  -- The call is cancelled while it awaits the thread that writes. That thread is not stopped, but it may
  -- not have been started.
  abbrev pub cancelled_write :
      (lands : Bool)
      → List AgentEvent
      → Checked (File I)
      → EventStore
      → Checked AgentEvent × EventStore
  cancelled_write true events (ok file) s = (cancelled, record s { file = file })
  cancelled_write false events (ok file) s = (cancelled, s)
  cancelled_write lands events (violated owner message) s = (cancelled, s)

  abbrev pub checked_event : EventStore → Request → List AgentEvent → Checked AgentEvent
  checked_event s q events = make_event I (draft s q (length events + 1)) >>= λ e.
      validated s.invariants (events ++ (e ∷ [])) >>= λ done. ok e

  abbrev pub cancel_checked :
      (lands : Bool)
      → List AgentEvent
      → Checked AgentEvent
      → EventStore
      → Checked AgentEvent × EventStore
  cancel_checked lands events (ok e) s = cancelled_write lands events (append_sync I e s.file) s
  cancel_checked lands events (violated owner message) s = (violated owner message, s)

  abbrev pub cancel_loaded :
      (lands : Bool)
      → Request
      → Checked (List AgentEvent) × EventStore
      → Checked AgentEvent × EventStore
  cancel_loaded lands q (ok events, s) = cancel_checked lands events (checked_event s q events) s
  cancel_loaded lands q (violated owner message, s) = (violated owner message, s)

  -- `append`, with what its task's cancellation does at each of its awaits
  unfoldable pub append : Cancellation → Request → EventStore → Checked AgentEvent × EventStore
  append Cancellation.never q s = append_now q s
  append Cancellation.before_write q s = (cancelled, s)
  append (Cancellation.during_write lands) q s = cancel_loaded lands q (load s)
