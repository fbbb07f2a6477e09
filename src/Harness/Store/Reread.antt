-- ===== src/Harness/Store/Reread.antt =====
-- Reading what `to_dict` of src/aegisrun/harness/events.py made, with the keys in any order.
use equi_seek.Prelude.{String, ◌==◌, ◌≡◌, refl, ap, ◌∙◌, true, false, Option, none, some, arith}
use mathlib.Core.Option
use equi_seek.Data.Json.{Value, Fields}
use equi_seek.Harness.Checked.{ok, ◌>>=◌}
use equi_seek.Harness.Events.{EventSource, AgentEvent}
use equi_seek.Harness.Store.Json.{Interpreter, JsonLaws, get}
use equi_seek.Harness.Store.Make.{make_source, make_event, Draft}
use equi_seek.Harness.Store.Record.{
  optional_field, source_to_dict, to_dict, optional_string, source_from_dict, read_event,
}

get-optional_same :
    (k : String) (o : Option String) (rest : Fields)
    → (k == k) ≡ true
    → get k rest ≡ none
    → get k (optional_field k o rest) ≡ Option.map Value.str o
unfolding get
get-optional_same k none rest same e = e
get-optional_same k (some s) rest same e = ground arith

get-optional_other :
    (k j : String) (o : Option String) (rest : Fields)
    → (j == k) ≡ false
    → get k (optional_field j o rest) ≡ get k rest
unfolding get
get-optional_other k j none rest other = refl
get-optional_other k j (some s) rest other = ground arith

module _ (e : AgentEvent) where
  get-parent : get "parent_session_id" (to_dict e) ≡ Option.map Value.str e.parent_session_id
  unfolding get to_dict
  get-parent = get-optional_same "parent_session_id" e.parent_session_id _ refl (
      get-optional_other "parent_session_id" "turn_id" e.turn_id _ refl
      ∙ get-optional_other "parent_session_id" "step_id" e.step_id _ refl
      ∙ get-optional_other "parent_session_id" "task_id" e.task_id _ refl)

  get-turn : get "turn_id" (to_dict e) ≡ Option.map Value.str e.turn_id
  unfolding get to_dict
  get-turn =
      get-optional_other "turn_id" "parent_session_id" e.parent_session_id _ refl
      ∙ get-optional_same "turn_id" e.turn_id _ refl (
          get-optional_other "turn_id" "step_id" e.step_id _ refl
          ∙ get-optional_other "turn_id" "task_id" e.task_id _ refl)

  get-step : get "step_id" (to_dict e) ≡ Option.map Value.str e.step_id
  unfolding get to_dict
  get-step =
      get-optional_other "step_id" "parent_session_id" e.parent_session_id _ refl
      ∙ get-optional_other "step_id" "turn_id" e.turn_id _ refl
      ∙ get-optional_same "step_id" e.step_id _ refl
          (get-optional_other "step_id" "task_id" e.task_id _ refl)

  get-task : get "task_id" (to_dict e) ≡ Option.map Value.str e.task_id
  unfolding get to_dict
  get-task =
      get-optional_other "task_id" "parent_session_id" e.parent_session_id _ refl
      ∙ get-optional_other "task_id" "turn_id" e.turn_id _ refl
      ∙ get-optional_other "task_id" "step_id" e.step_id _ refl
      ∙ get-optional_same "task_id" e.task_id _ refl refl

module _ (I : Interpreter) (L : JsonLaws I) where
  open L use {
    canonical, canonical_fields, canonical_str, canonical_int, canonical_obj, get_canonical,
    str_str, int_int,
  }

  -- a field whose value stays as it is
  pub get_kept :
      (k : String) (fs : Fields) (v w : Value)
      → get k fs ≡ some v
      → canonical v ≡ w
      → get k (canonical_fields fs) ≡ some w
  get_kept k fs v w e c = get_canonical k fs ∙ ap (Option.map canonical) e ∙ ap some c

  optional_of :
      (o : Option String) → optional_string I (Option.map canonical (Option.map Value.str o)) ≡ o
  unfolding optional_string
  optional_of none = refl
  optional_of (some s) = rw (canonical_str s) (ap some (str_str s))

  optional_kept :
      (k : String) (fs : Fields) (o : Option String)
      → get k fs ≡ Option.map Value.str o
      → optional_string I (get k (canonical_fields fs)) ≡ o
  optional_kept k fs o e =
      ap (optional_string I) (get_canonical k fs ∙ ap (Option.map canonical) e) ∙ optional_of o

  source_kept :
      (s : EventSource) → source_from_dict I (canonical_fields (source_to_dict s)) ≡ make_source s
  unfolding source_from_dict ◌>>=◌ get source_to_dict
  source_kept s =
      let kind : get "kind" (canonical_fields (source_to_dict s)) ≡ some (Value.str s.kind) =
        get_kept "kind" (source_to_dict s) (Value.str s.kind) _ refl (canonical_str s.kind) in
      let actor = optional_kept "actor_id" (source_to_dict s) s.actor_id (
        get-optional_same "actor_id" s.actor_id _ refl
          (get-optional_other "actor_id" "form" s.form _ refl)) in
      let form = optional_kept "form" (source_to_dict s) s.form (
        get-optional_other "form" "actor_id" s.actor_id _ refl
        ∙ get-optional_same "form" s.form _ refl refl) in
      rw (kind, actor, form, str_str s.kind) refl

  abbrev pub redraft : AgentEvent → Fields → Draft
  redraft e payload = record {
    run_id = e.run_id;
    session_id = e.session_id;
    seq = e.seq;
    event_type = e.event_type;
    schema_version = e.schema_version;
    created_at = e.created_at;
    source = e.source;
    payload = Value.obj payload;
    parent_session_id = e.parent_session_id;
    turn_id = e.turn_id;
    step_id = e.step_id;
    task_id = e.task_id;
  }

  pub read_event-to_dict :
      (e : AgentEvent) (payload : Fields)
      → make_source e.source ≡ ok e.source
      → read_event I
          (canonical_fields (to_dict e))
          (canonical_fields (source_to_dict e.source))
          payload
        ≡ make_event I (redraft e payload)
  unfolding read_event ◌>>=◌ get to_dict
  read_event-to_dict e payload made =
      let d : Fields = to_dict e in
      let run = get_kept "run_id" d (Value.str e.run_id) _ refl (canonical_str e.run_id) in
      let session =
        get_kept "session_id" d (Value.str e.session_id) _ refl (canonical_str e.session_id) in
      let seq = get_kept "seq" d (Value.int false e.seq) _ refl (canonical_int false e.seq) in
      let kind =
        get_kept "event_type" d (Value.str e.event_type) _ refl (canonical_str e.event_type) in
      let version =
        get_kept "schema_version" d (Value.int false e.schema_version) _ refl
          (canonical_int false e.schema_version) in
      let created =
        get_kept "created_at" d (Value.str e.created_at) _ refl (canonical_str e.created_at) in
      rw
        (
          run,
          session,
          seq,
          kind,
          version,
          created,
          str_str e.run_id,
          str_str e.session_id,
          int_int e.seq,
          str_str e.event_type,
          int_int e.schema_version,
          str_str e.created_at,
          source_kept e.source,
          made,
          optional_kept "parent_session_id" d e.parent_session_id (get-parent e),
          optional_kept "turn_id" d e.turn_id (get-turn e),
          optional_kept "step_id" d e.step_id (get-step e),
          optional_kept "task_id" d e.task_id (get-task e),
        )
        refl
