-- ===== src/Harness/Lifecycle/State.antt =====
-- The local variables of `lifecycle_invariant` in src/aegisrun/harness/invariants.py and the event
-- types that its loop tells apart.
use equi_seek.Prelude.{ℕ, String, ◌==◌, List, [], if◌then◌else◌}
use equi_seek.Dict.{Dict}

pub record Lifecycle : Type 0 where
  pub open_tools : List String
  pub closed_tools : List String
  pub open_children : List String
  pub closed_children : List String
  pub open_models : List String
  pub closed_models : List String
  pub request_headers : Dict ℕ
  pub continuable_children : List String
  pub settled_continuable_children : List String
  pub followups : Dict String
  pub consumed_followups : List String
  pub open_turns : Dict String
  pub closed_turns : List String
  pub open_agent_turns : List String
  pub closed_agent_turns : List String
  pub open_agent_steps : Dict String
  pub closed_agent_steps : List String

pub data Kind : Type 0 where
  turn_started : Kind
  step_started : Kind
  step_ended : Kind
  turn_ended : Kind
  session_ended : Kind
  request_header : Kind
  tool_call : Kind
  tool_result : Kind
  subagent_started : Kind
  subagent_ended : Kind
  subagent_created : Kind
  subagent_followup : Kind
  subagent_turn_started : Kind
  subagent_report : Kind
  subagent_turn_ended : Kind
  subagent_settled : Kind
  model_request : Kind
  model_terminal : Kind
  other : Kind

-- the chain of tests on `event.event_type`
unfoldable pub kind_of : String → Kind
kind_of t =
    if t == "turn/started"
    then Kind.turn_started
    else if t == "step/started"
    then Kind.step_started
    else if t == "step/ended"
    then Kind.step_ended
    else if t == "turn/ended"
    then Kind.turn_ended
    else if t == "session/ended"
    then Kind.session_ended
    else if t == "request/header"
    then Kind.request_header
    else if t == "tool/call"
    then Kind.tool_call
    else if t == "tool/result"
    then Kind.tool_result
    else if t == "subagent/started"
    then Kind.subagent_started
    else if t == "subagent/ended"
    then Kind.subagent_ended
    else if t == "subagent/created"
    then Kind.subagent_created
    else if t == "subagent/followup"
    then Kind.subagent_followup
    else if t == "subagent/turn-started"
    then Kind.subagent_turn_started
    else if t == "subagent/report"
    then Kind.subagent_report
    else if t == "subagent/turn-ended"
    then Kind.subagent_turn_ended
    else if t == "subagent/settled"
    then Kind.subagent_settled
    else if t == "model/request"
    then Kind.model_request
    else if t == "model/response"
    then Kind.model_terminal
    else if t == "model/failure"
    then Kind.model_terminal
    else Kind.other

abbrev pub initial : Lifecycle
initial = record {
  open_tools = [];
  closed_tools = [];
  open_children = [];
  closed_children = [];
  open_models = [];
  closed_models = [];
  request_headers = [];
  continuable_children = [];
  settled_continuable_children = [];
  followups = [];
  consumed_followups = [];
  open_turns = [];
  closed_turns = [];
  open_agent_turns = [];
  closed_agent_turns = [];
  open_agent_steps = [];
  closed_agent_steps = [];
}
