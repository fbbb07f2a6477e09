-- ===== src/Harness/Lifecycle/Moves.antt =====
-- What each branch of `lifecycle_invariant` in src/aegisrun/harness/invariants.py does to the work
-- that is open.
use equi_seek.Prelude.{String, ◌≡◌, true, not, ◌&&◌, ◌||◌, elem, arith, Option-cases, inl, inr}
use equi_seek.Dict.{Dict, keys, insert, erase, lookup, elem-keys-insert, elem-of_lookup}
use equi_seek.Harness.Checked.{ok}
use equi_seek.Harness.Events.{AgentEvent, identity, is_text}
use equi_seek.Harness.Sets.{add, remove, elem-add}
use equi_seek.Harness.Lifecycle.State.{Lifecycle, Kind}
use equi_seek.Harness.Lifecycle.Tally.{Family, Counts-same, Moves, sane, begun, ended}
use equi_seek.Harness.Lifecycle.Counting.{
  begin_apart, end_apart, begin_nested, end_nested, begin_step, end_step,
}

pub key_of_text :
    (k v : String) (d : Dict String) → is_text (lookup k d) v ≡ true → elem k (keys d) ≡ true
key_of_text k v d h = elim (Option-cases (lookup k d)) [
  | inl n ↦ absurd (ground arith)
  | inr (w, e) ↦ elem-of_lookup k d w e
]

module _ (s : Lifecycle) (e : AgentEvent) where
  pub tool_call-Moves :
      (a : String)
      → identity e.payload "call_id" "tool" ≡ ok a
      → not (elem a s.open_tools || elem a s.closed_tools) ≡ true
      → (f : Family) (id : String)
      → Moves Kind.tool_call e s (record s { open_tools = add a s.open_tools }) f id
  tool_call-Moves a n g Family.tool id h = rw n (begin_apart a id s.open_tools s.closed_tools h g)
  tool_call-Moves a n g f id h = Counts-same (sane f s id) (begun f s id) (ended f s id) h

  pub tool_result-Moves :
      (a : String)
      → identity e.payload "call_id" "tool" ≡ ok a
      → (elem a s.open_tools && not (elem a s.closed_tools)) ≡ true
      → (f : Family) (id : String)
      → Moves Kind.tool_result e s
          (record s { open_tools = remove a s.open_tools; closed_tools = add a s.closed_tools })
          f
          id
  tool_result-Moves a n g Family.tool id h =
      rw n (end_apart a id s.open_tools s.closed_tools h (ground arith))
  tool_result-Moves a n g f id h = Counts-same (sane f s id) (begun f s id) (ended f s id) h

  pub model_request-Moves :
      (a : String)
      → identity e.payload "request_id" "model" ≡ ok a
      → not (elem a s.open_models || elem a s.closed_models) ≡ true
      → (f : Family) (id : String)
      → Moves Kind.model_request e s (record s { open_models = add a s.open_models }) f id
  model_request-Moves a n g Family.model id h =
      rw n (begin_apart a id s.open_models s.closed_models h g)
  model_request-Moves a n g f id h = Counts-same (sane f s id) (begun f s id) (ended f s id) h

  pub model_terminal-Moves :
      (a : String)
      → identity e.payload "request_id" "model" ≡ ok a
      → (elem a s.open_models && not (elem a s.closed_models)) ≡ true
      → (f : Family) (id : String)
      → Moves Kind.model_terminal e s
          (record s { open_models = remove a s.open_models; closed_models = add a s.closed_models })
          f
          id
  model_terminal-Moves a n g Family.model id h =
      rw n (end_apart a id s.open_models s.closed_models h (ground arith))
  model_terminal-Moves a n g f id h = Counts-same (sane f s id) (begun f s id) (ended f s id) h

  pub subagent_started-Moves :
      (a : String)
      → identity e.payload "child_id" "subagent" ≡ ok a
      → not (elem a s.open_children || elem a s.closed_children) ≡ true
      → (f : Family) (id : String)
      → Moves Kind.subagent_started e s (record s { open_children = add a s.open_children }) f id
  subagent_started-Moves a n g Family.child id h =
      rw n (begin_apart a id s.open_children s.closed_children h g)
  subagent_started-Moves a n g f id h = Counts-same (sane f s id) (begun f s id) (ended f s id) h

  pub subagent_ended-Moves :
      (a : String)
      → identity e.payload "child_id" "subagent" ≡ ok a
      → (elem a s.open_children && not (elem a s.closed_children)) ≡ true
      → (f : Family) (id : String)
      → Moves Kind.subagent_ended e s
          (record s {
            open_children = remove a s.open_children;
            closed_children = add a s.closed_children;
          })
          f
          id
  subagent_ended-Moves a n g Family.child id h =
      rw n (end_apart a id s.open_children s.closed_children h (ground arith))
  subagent_ended-Moves a n g f id h = Counts-same (sane f s id) (begun f s id) (ended f s id) h

  pub turn_started-Moves :
      (a : String)
      → identity e.payload "turn_id" "turn" ≡ ok a
      → not (elem a s.open_agent_turns || elem a s.closed_agent_turns) ≡ true
      → (f : Family) (id : String)
      → Moves Kind.turn_started e s (record s { open_agent_turns = add a s.open_agent_turns }) f id
  turn_started-Moves a n g Family.turn id h =
      rw n (begin_apart a id s.open_agent_turns s.closed_agent_turns h g)
  turn_started-Moves a n g f id h = Counts-same (sane f s id) (begun f s id) (ended f s id) h

  pub turn_ended-Moves :
      (a : String)
      → identity e.payload "turn_id" "turn" ≡ ok a
      → elem a s.open_agent_turns ≡ true
      → (f : Family) (id : String)
      → Moves Kind.turn_ended e s
          (record s {
            open_agent_turns = remove a s.open_agent_turns;
            closed_agent_turns = add a s.closed_agent_turns;
          })
          f
          id
  turn_ended-Moves a n g Family.turn id h =
      rw n (end_apart a id s.open_agent_turns s.closed_agent_turns h g)
  turn_ended-Moves a n g f id h = Counts-same (sane f s id) (begun f s id) (ended f s id) h

  pub step_started-Moves :
      (turn : String) (a : String)
      → identity e.payload "step_id" "step" ≡ ok a
      → not (elem a (keys s.open_agent_steps) || elem a s.closed_agent_steps) ≡ true
      → (f : Family) (id : String)
      → Moves Kind.step_started e s
          (record s { open_agent_steps = insert a turn s.open_agent_steps })
          f
          id
  step_started-Moves turn a n g Family.step id h =
      rw n (begin_step a id s.open_agent_steps s.closed_agent_steps turn h g)
  step_started-Moves turn a n g f id h = Counts-same (sane f s id) (begun f s id) (ended f s id) h

  pub step_ended-Moves :
      (a : String)
      → identity e.payload "step_id" "step" ≡ ok a
      → elem a (keys s.open_agent_steps) ≡ true
      → (f : Family) (id : String)
      → Moves Kind.step_ended e s
          (record s {
            open_agent_steps = erase a s.open_agent_steps;
            closed_agent_steps = add a s.closed_agent_steps;
          })
          f
          id
  step_ended-Moves a n g Family.step id h =
      rw n (end_step a id s.open_agent_steps s.closed_agent_steps h g)
  step_ended-Moves a n g f id h = Counts-same (sane f s id) (begun f s id) (ended f s id) h

  pub subagent_created-Moves :
      (a : String)
      → identity e.payload "child_id" "subagent" ≡ ok a
      → not (elem a s.continuable_children || elem a s.open_children || elem a s.closed_children)
        ≡ true
      → (f : Family) (id : String)
      → Moves Kind.subagent_created e s
          (record s { continuable_children = add a s.continuable_children })
          f
          id
  subagent_created-Moves a n g Family.continuable id h = rw n (
      begin_nested a id (elem id s.continuable_children) (elem id s.settled_continuable_children)
        (elem id (add a s.continuable_children)) h (elem-add a id s.continuable_children)
        (λ same. ground arith))
  subagent_created-Moves a n g f id h = Counts-same (sane f s id) (begun f s id) (ended f s id) h

  pub subagent_settled-Moves :
      (a : String)
      → identity e.payload "child_id" "subagent" ≡ ok a
      → (elem a s.continuable_children
          && not (elem a s.settled_continuable_children)
          && not (elem a (keys s.open_turns)))
        ≡ true
      → (f : Family) (id : String)
      → Moves Kind.subagent_settled e s
          (record s { settled_continuable_children = add a s.settled_continuable_children })
          f
          id
  subagent_settled-Moves a n g Family.continuable id h = rw n (
      end_nested a id (elem id s.continuable_children) (elem id s.settled_continuable_children)
        (elem id (add a s.settled_continuable_children)) h
        (elem-add a id s.settled_continuable_children) (λ same. ground arith)
        (λ same. ground arith))
  subagent_settled-Moves a n g f id h = Counts-same (sane f s id) (begun f s id) (ended f s id) h

  pub subagent_followup-Moves :
      (child : String) (a : String)
      → identity e.payload "followup_id" "subagent" ≡ ok a
      → not (elem a (keys s.followups)) ≡ true
      → (f : Family) (id : String)
      → Moves Kind.subagent_followup e s (record s { followups = insert a child s.followups }) f id
  subagent_followup-Moves child a n g Family.followup id h = rw n (
      begin_nested a id (elem id (keys s.followups)) (elem id s.consumed_followups)
        (elem id (keys (insert a child s.followups))) h (elem-keys-insert a id child s.followups)
        (λ same. ground arith))
  subagent_followup-Moves child a n g f id h =
      Counts-same (sane f s id) (begun f s id) (ended f s id) h

  pub subagent_turn_started-Moves :
      (child turn : String) (a : String)
      → identity e.payload "followup_id" "subagent" ≡ ok a
      → (is_text (lookup a s.followups) child && not (elem a s.consumed_followups)) ≡ true
      → (f : Family) (id : String)
      → Moves Kind.subagent_turn_started e s
          (record s {
            consumed_followups = add a s.consumed_followups;
            open_turns = insert child turn s.open_turns;
          })
          f
          id
  subagent_turn_started-Moves child turn a n g Family.followup id h = rw n (
      end_nested a id (elem id (keys s.followups)) (elem id s.consumed_followups)
        (elem id (add a s.consumed_followups)) h (elem-add a id s.consumed_followups)
        (λ same. ground (arith, key_of_text a child s.followups)) (λ same. ground arith))
  subagent_turn_started-Moves child turn a n g f id h =
      Counts-same (sane f s id) (begun f s id) (ended f s id) h
