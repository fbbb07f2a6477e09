-- ===== src/Harness/Lifecycle/Tally.antt =====
-- What each pair of variables of `lifecycle_invariant` in src/aegisrun/harness/invariants.py
-- remembers: which ids have begun, and which of them have ended.
use equi_seek.Prelude.{
  ℕ, ◌+◌, String, ◌==◌, ◌≡◌, Bool, true, false, not, ◌&&◌, ◌||◌, elem, arith, if◌then◌else◌,
}
use equi_seek.Dict.{keys}
use equi_seek.Harness.Checked.{Checked, ok, violated}
use equi_seek.Harness.Events.{AgentEvent, identity}
use equi_seek.Harness.Lifecycle.State.{Lifecycle, Kind}

-- the work that the stream opens and closes
pub data Family : Type 0 where
  tool : Family
  model : Family
  child : Family
  turn : Family
  step : Family
  continuable : Family
  followup : Family

abbrev pub begun : Family → Lifecycle → String → Bool
begun Family.tool s id = elem id s.open_tools || elem id s.closed_tools
begun Family.model s id = elem id s.open_models || elem id s.closed_models
begun Family.child s id = elem id s.open_children || elem id s.closed_children
begun Family.turn s id = elem id s.open_agent_turns || elem id s.closed_agent_turns
begun Family.step s id = elem id (keys s.open_agent_steps) || elem id s.closed_agent_steps
begun Family.continuable s id = elem id s.continuable_children
begun Family.followup s id = elem id (keys s.followups)

abbrev pub ended : Family → Lifecycle → String → Bool
ended Family.tool s id = elem id s.closed_tools
ended Family.model s id = elem id s.closed_models
ended Family.child s id = elem id s.closed_children
ended Family.turn s id = elem id s.closed_agent_turns
ended Family.step s id = elem id s.closed_agent_steps
ended Family.continuable s id = elem id s.settled_continuable_children
ended Family.followup s id = elem id s.consumed_followups

-- open and closed are apart, and what has ended has begun
abbrev pub sane : Family → Lifecycle → String → Bool
sane Family.tool s id = not (elem id s.open_tools && elem id s.closed_tools)
sane Family.model s id = not (elem id s.open_models && elem id s.closed_models)
sane Family.child s id = not (elem id s.open_children && elem id s.closed_children)
sane Family.turn s id = not (elem id s.open_agent_turns && elem id s.closed_agent_turns)
sane Family.step s id = not (elem id (keys s.open_agent_steps) && elem id s.closed_agent_steps)
sane Family.continuable s id =
    not (elem id s.settled_continuable_children) || elem id s.continuable_children
sane Family.followup s id = not (elem id s.consumed_followups) || elem id (keys s.followups)

abbrev pub is_the : Checked String → String → Bool
is_the (ok a) id = a == id
is_the (violated o m) id = false

-- the event begins the work of that id
abbrev pub begins : Family → Kind → AgentEvent → String → Bool
begins Family.tool Kind.tool_call e = is_the (identity e.payload "call_id" "tool")
begins Family.model Kind.model_request e = is_the (identity e.payload "request_id" "model")
begins Family.child Kind.subagent_started e = is_the (identity e.payload "child_id" "subagent")
begins Family.turn Kind.turn_started e = is_the (identity e.payload "turn_id" "turn")
begins Family.step Kind.step_started e = is_the (identity e.payload "step_id" "step")
begins Family.continuable Kind.subagent_created e =
    is_the (identity e.payload "child_id" "subagent")
begins Family.followup Kind.subagent_followup e =
    is_the (identity e.payload "followup_id" "subagent")
begins _ _ e = λ id. false

-- the event ends the work of that id
abbrev pub ends : Family → Kind → AgentEvent → String → Bool
ends Family.tool Kind.tool_result e = is_the (identity e.payload "call_id" "tool")
ends Family.model Kind.model_terminal e = is_the (identity e.payload "request_id" "model")
ends Family.child Kind.subagent_ended e = is_the (identity e.payload "child_id" "subagent")
ends Family.turn Kind.turn_ended e = is_the (identity e.payload "turn_id" "turn")
ends Family.step Kind.step_ended e = is_the (identity e.payload "step_id" "step")
ends Family.continuable Kind.subagent_settled e = is_the (identity e.payload "child_id" "subagent")
ends Family.followup Kind.subagent_turn_started e =
    is_the (identity e.payload "followup_id" "subagent")
ends _ _ e = λ id. false

abbrev pub bit : Bool → ℕ
bit b = if b then 1 else 0

-- a step adds one to what has begun and to what has ended where the event says so
pub record Counts (sane begun ended sane' begun' ended' begins ends : Bool) : Type 0 where
  pub stays_sane : sane' ≡ true
  pub counts_begun : bit begun' ≡ bit begun + bit begins
  pub counts_ended : bit ended' ≡ bit ended + bit ends

-- what the event does to the work of a family, at every id
abbrev pub Moves : Kind → AgentEvent → Lifecycle → Lifecycle → Family → String → Type 0
Moves k e s s' f id =
    sane f s id ≡ true
    → Counts (sane f s id) (begun f s id) (ended f s id) (sane f s' id) (begun f s' id)
        (ended f s' id) (begins f k e id) (ends f k e id)

pub Counts-same : (x b d : Bool) → x ≡ true → Counts x b d x b d false false
Counts-same x b d h = record {
  stays_sane = h;
  counts_begun = ground arith;
  counts_ended = ground arith;
}
