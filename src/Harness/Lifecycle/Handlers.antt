-- ===== src/Harness/Lifecycle/Handlers.antt =====
-- The branches of the loop of `lifecycle_invariant` in src/aegisrun/harness/invariants.py.
use equi_seek.Prelude.{
  ℕ, String, ◌==◌, Bool, true, false, not, ◌&&◌, ◌||◌, Option, none, some, List, [], ◌∷◌, elem,
}
use equi_seek.Dict.{Dict, lookup, insert, erase, keys, any_value}
use equi_seek.Data.Json.{Value}
use equi_seek.Harness.Checked.{Checked, ok, ◌>>=◌, demand}
use equi_seek.Harness.Events.{AgentEvent, identity, is_text, equals_number}
use equi_seek.Harness.Sets.{add, remove}
use equi_seek.Harness.Lifecycle.State.{Lifecycle, Kind}

abbrev pub is_empty {ℓ} : {A : Type ℓ} → List A → Bool
is_empty [] = true
is_empty (x ∷ xs) = false

-- an optional text in a set of texts
abbrev pub in_set : Option String → List String → Bool
in_set none xs = false
in_set (some t) xs = elem t xs

-- `open_agent_steps.get(step_id) != event.turn_id`, negated, for an event with a turn
abbrev pub same_turn : Option String → Option String → Bool
same_turn none _ = false
same_turn (some t) started = is_text started t

-- `open_agent_steps[step_id] = event.turn_id`; the turn was just found in a set of texts
abbrev pub open_step : String → Option String → Dict String → Dict String
open_step id (some t) d = insert id t d
open_step id none d = d

-- `request_headers.get(request_id) != header_seq`, negated
abbrev pub is_number : Option ℕ → Value → Bool
is_number (some n) v = equals_number v n
is_number none v = false

-- `header_seq is not None and ...`, negated
abbrev pub refers : Option Value → Option ℕ → Bool
refers none seq = true
refers (some Value.null) seq = true
refers (some v) seq = is_number seq v

-- what one event does to the variables, or the violation that it is
unfoldable pub handle : Kind → Lifecycle → AgentEvent → Checked Lifecycle
handle Kind.turn_started s e = identity e.payload "turn_id" "turn" >>= λ id.
    demand (is_text e.turn_id id) "turn" "event metadata does not match turn id" (
      demand (not (elem id s.open_agent_turns || elem id s.closed_agent_turns)) "turn"
        "duplicate turn id" (ok (record s { open_agent_turns = add id s.open_agent_turns })))
handle Kind.step_started s e = identity e.payload "step_id" "step" >>= λ id.
    demand (is_text e.step_id id) "step" "event metadata does not match step id" (
      demand (in_set e.turn_id s.open_agent_turns) "step" "step is outside an open turn" (
        demand (not (elem id (keys s.open_agent_steps) || elem id s.closed_agent_steps)) "step"
          "duplicate step id"
          (ok (record s { open_agent_steps = open_step id e.turn_id s.open_agent_steps }))))
handle Kind.step_ended s e = identity e.payload "step_id" "step" >>= λ id.
    demand (is_text e.step_id id && same_turn e.turn_id (lookup id s.open_agent_steps)) "step"
      "orphan or mismatched step ending"
      (ok (record s {
        open_agent_steps = erase id s.open_agent_steps;
        closed_agent_steps = add id s.closed_agent_steps;
      }))
handle Kind.turn_ended s e = identity e.payload "turn_id" "turn" >>= λ id.
    demand (is_text e.turn_id id && elem id s.open_agent_turns) "turn"
      "orphan or mismatched turn ending"
      (demand (not (any_value (λ turn. id == turn) s.open_agent_steps)) "turn"
        "turn ended with an open step"
        (ok (record s {
          open_agent_turns = remove id s.open_agent_turns;
          closed_agent_turns = add id s.closed_agent_turns;
        })))
handle Kind.session_ended s e =
    demand
      (is_empty s.open_agent_turns
        && is_empty s.open_agent_steps
        && is_empty s.open_models
        && is_empty s.open_tools)
      "session" "session ended with open lifecycle work" (ok s)
handle Kind.request_header s e = identity e.payload "request_id" "request" >>= λ id.
    demand (not (elem id (keys s.request_headers))) "request" "duplicate request header id"
      (ok (record s { request_headers = insert id e.seq s.request_headers }))
handle Kind.tool_call s e = identity e.payload "call_id" "tool" >>= λ id.
    demand (not (elem id s.open_tools || elem id s.closed_tools)) "tool" "duplicate tool call id"
      (ok (record s { open_tools = add id s.open_tools }))
handle Kind.tool_result s e = identity e.payload "call_id" "tool" >>= λ id.
    demand (elem id s.open_tools && not (elem id s.closed_tools)) "tool"
      "orphan or duplicate tool result"
      (ok (record s { open_tools = remove id s.open_tools; closed_tools = add id s.closed_tools }))
handle Kind.subagent_started s e = identity e.payload "child_id" "subagent" >>= λ id.
    demand
      (not (elem id s.open_children || elem id s.closed_children || elem id s.continuable_children))
      "subagent" "duplicate child id" (ok (record s { open_children = add id s.open_children }))
handle Kind.subagent_ended s e = identity e.payload "child_id" "subagent" >>= λ id.
    demand (elem id s.open_children && not (elem id s.closed_children)) "subagent"
      "orphan or duplicate child ending"
      (ok (record s {
        open_children = remove id s.open_children;
        closed_children = add id s.closed_children;
      }))
handle Kind.subagent_created s e = identity e.payload "child_id" "subagent" >>= λ id.
    demand
      (not (elem id s.continuable_children || elem id s.open_children || elem id s.closed_children))
      "subagent" "duplicate continuable child id"
      (ok (record s { continuable_children = add id s.continuable_children }))
handle Kind.subagent_followup s e = identity e.payload "child_id" "subagent" >>= λ child.
    identity e.payload "followup_id" "subagent" >>= λ id.
    demand (elem child s.continuable_children && not (elem child s.settled_continuable_children))
      "subagent" "followup targets an unavailable child"
      (demand (not (elem id (keys s.followups))) "subagent" "duplicate followup id"
        (ok (record s { followups = insert id child s.followups })))
handle Kind.subagent_turn_started s e = identity e.payload "child_id" "subagent" >>= λ child.
    identity e.payload "followup_id" "subagent" >>= λ id.
    identity e.payload "turn_id" "subagent" >>= λ turn.
    demand (is_text (lookup id s.followups) child && not (elem id s.consumed_followups)) "subagent"
      "turn does not consume one queued followup"
      (demand (not (elem child (keys s.open_turns) || elem turn s.closed_turns)) "subagent"
        "continuable child already has an open turn"
        (ok (record s {
          consumed_followups = add id s.consumed_followups;
          open_turns = insert child turn s.open_turns;
        })))
handle Kind.subagent_report s e = identity e.payload "child_id" "subagent" >>= λ child.
    identity e.payload "turn_id" "subagent" >>= λ turn.
    demand (is_text (lookup child s.open_turns) turn) "subagent"
      "report is outside its open child turn" (ok s)
handle Kind.subagent_turn_ended s e = identity e.payload "child_id" "subagent" >>= λ child.
    identity e.payload "turn_id" "subagent" >>= λ turn.
    demand (is_text (lookup child s.open_turns) turn) "subagent"
      "orphan or mismatched child turn ending"
      (ok (record s {
        open_turns = erase child s.open_turns;
        closed_turns = add turn s.closed_turns;
      }))
handle Kind.subagent_settled s e = identity e.payload "child_id" "subagent" >>= λ child.
    demand
      (elem child s.continuable_children
        && not (elem child s.settled_continuable_children)
        && not (elem child (keys s.open_turns)))
      "subagent" "invalid continuable settlement"
      (ok (record s { settled_continuable_children = add child s.settled_continuable_children }))
handle Kind.model_request s e = identity e.payload "request_id" "model" >>= λ id.
    demand (not (elem id s.open_models || elem id s.closed_models)) "model"
      "duplicate model request id"
      (demand (refers (lookup "header_seq" e.payload) (lookup id s.request_headers)) "request"
        "model request does not reference its header"
        (ok (record s { open_models = add id s.open_models })))
handle Kind.model_terminal s e = identity e.payload "request_id" "model" >>= λ id.
    demand (elem id s.open_models && not (elem id s.closed_models)) "model"
      "orphan or duplicate model terminal event"
      (ok (record s {
        open_models = remove id s.open_models;
        closed_models = add id s.closed_models;
      }))
handle Kind.other s e = ok s
