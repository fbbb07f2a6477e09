-- ===== src/Harness/Lifecycle/Step.antt =====
-- The loop of `lifecycle_invariant` in src/aegisrun/harness/invariants.py: an event that it accepts
-- begins and ends the work that the event names.
use equi_seek.Prelude.{ℕ, List, String, ◌≡◌, true, not, ◌||◌, Option, none, some, elem, arith}
use equi_seek.Dict.{Dict, keys, insert, erase, lookup}
use equi_seek.Harness.Checked.{ok, Holds, bind-Holds, demand-Holds}
use equi_seek.Harness.Events.{AgentEvent, identity}
use equi_seek.Harness.Sets.{add}
use equi_seek.Harness.Lifecycle.State.{Lifecycle, Kind}
use equi_seek.Harness.Lifecycle.Handlers.{handle, in_set, same_turn, open_step}
use equi_seek.Harness.Lifecycle.Tally.{Family, Counts-same, Moves, sane, begun, ended}
use equi_seek.Harness.Lifecycle.Moves.{
  key_of_text, tool_call-Moves, tool_result-Moves, model_request-Moves, model_terminal-Moves,
  subagent_started-Moves, subagent_ended-Moves, turn_started-Moves, turn_ended-Moves,
  step_started-Moves, step_ended-Moves, subagent_created-Moves, subagent_settled-Moves,
  subagent_followup-Moves, subagent_turn_started-Moves,
}

-- the event does to the work of every family what it says
abbrev pub Tracks : Kind → AgentEvent → Lifecycle → Lifecycle → Type 0
Tracks k e s s' = (f : Family) (id : String) → Moves k e s s' f id

module _ (s : Lifecycle) (e : AgentEvent) where
  session_ended-Tracks : Tracks Kind.session_ended e s s
  session_ended-Tracks Family.tool id h =
      Counts-same (sane Family.tool s id) (begun Family.tool s id) (ended Family.tool s id) h
  session_ended-Tracks f id h = Counts-same (sane f s id) (begun f s id) (ended f s id) h

  request_header-Tracks :
      (headers : Dict ℕ) → Tracks Kind.request_header e s (record s { request_headers = headers })
  request_header-Tracks headers Family.tool id h =
      Counts-same (sane Family.tool s id) (begun Family.tool s id) (ended Family.tool s id) h
  request_header-Tracks headers f id h = Counts-same (sane f s id) (begun f s id) (ended f s id) h

  subagent_report-Tracks : Tracks Kind.subagent_report e s s
  subagent_report-Tracks Family.tool id h =
      Counts-same (sane Family.tool s id) (begun Family.tool s id) (ended Family.tool s id) h
  subagent_report-Tracks f id h = Counts-same (sane f s id) (begun f s id) (ended f s id) h

  subagent_turn_ended-Tracks :
      (turns : Dict String) (done : List String)
      → Tracks Kind.subagent_turn_ended e s (record s { open_turns = turns; closed_turns = done })
  subagent_turn_ended-Tracks turns done Family.tool id h =
      Counts-same (sane Family.tool s id) (begun Family.tool s id) (ended Family.tool s id) h
  subagent_turn_ended-Tracks turns done f id h =
      Counts-same (sane f s id) (begun f s id) (ended f s id) h

  other-Tracks : Tracks Kind.other e s s
  other-Tracks Family.tool id h =
      Counts-same (sane Family.tool s id) (begun Family.tool s id) (ended Family.tool s id) h
  other-Tracks f id h = Counts-same (sane f s id) (begun f s id) (ended f s id) h

  step_started-Tracks :
      (a : String) (t : Option String)
      → identity e.payload "step_id" "step" ≡ ok a
      → in_set t s.open_agent_turns ≡ true
      → not (elem a (keys s.open_agent_steps) || elem a s.closed_agent_steps) ≡ true
      → Tracks Kind.step_started e s
          (record s { open_agent_steps = open_step a t s.open_agent_steps })
  step_started-Tracks a none n i g = absurd (ground arith)
  step_started-Tracks a (some turn) n i g = step_started-Moves s e turn a n g

  step_found :
      (t : Option String) (d : Dict String) (a : String)
      → same_turn t (lookup a d) ≡ true
      → elem a (keys d) ≡ true
  step_found none d a h = absurd (ground arith)
  step_found (some t) d a h = key_of_text a t d h

  pub handle-Tracks : (k : Kind) → Holds (Tracks k e s) (handle k s e)
  unfolding handle
  handle-Tracks Kind.turn_started = bind-Holds (Tracks Kind.turn_started e s) _ _ (λ a n_a.
      demand-Holds (Tracks Kind.turn_started e s) _ _ _ _ (λ g0.
        demand-Holds (Tracks Kind.turn_started e s) _ _ _ _
          (λ g1. turn_started-Moves s e a n_a g1)))
  handle-Tracks Kind.step_started = bind-Holds (Tracks Kind.step_started e s) _ _ (λ a n_a.
      demand-Holds (Tracks Kind.step_started e s) _ _ _ _ (λ g0.
        demand-Holds (Tracks Kind.step_started e s) _ _ _ _ (λ g1.
          demand-Holds (Tracks Kind.step_started e s) _ _ _ _
            (λ g2. step_started-Tracks a e.turn_id n_a g1 g2))))
  handle-Tracks Kind.step_ended = bind-Holds (Tracks Kind.step_ended e s) _ _ (λ a n_a.
      demand-Holds (Tracks Kind.step_ended e s) _ _ _ _ (λ g0.
        step_ended-Moves s e a n_a (step_found e.turn_id s.open_agent_steps a (ground arith))))
  handle-Tracks Kind.turn_ended = bind-Holds (Tracks Kind.turn_ended e s) _ _ (λ a n_a.
      demand-Holds (Tracks Kind.turn_ended e s) _ _ _ _ (λ g0.
        demand-Holds (Tracks Kind.turn_ended e s) _ _ _ _
          (λ g1. turn_ended-Moves s e a n_a (ground arith))))
  handle-Tracks Kind.session_ended =
      demand-Holds (Tracks Kind.session_ended e s) _ _ _ _ (λ g0. session_ended-Tracks)
  handle-Tracks Kind.request_header = bind-Holds (Tracks Kind.request_header e s) _ _ (λ a n_a.
      demand-Holds (Tracks Kind.request_header e s) _ _ _ _
        (λ g0. request_header-Tracks (insert a e.seq s.request_headers)))
  handle-Tracks Kind.tool_call = bind-Holds (Tracks Kind.tool_call e s) _ _ (λ a n_a.
      demand-Holds (Tracks Kind.tool_call e s) _ _ _ _ (λ g0. tool_call-Moves s e a n_a g0))
  handle-Tracks Kind.tool_result = bind-Holds (Tracks Kind.tool_result e s) _ _ (λ a n_a.
      demand-Holds (Tracks Kind.tool_result e s) _ _ _ _ (λ g0. tool_result-Moves s e a n_a g0))
  handle-Tracks Kind.subagent_started = bind-Holds (Tracks Kind.subagent_started e s) _ _ (λ a n_a.
      demand-Holds (Tracks Kind.subagent_started e s) _ _ _ _
        (λ g0. subagent_started-Moves s e a n_a (ground arith)))
  handle-Tracks Kind.subagent_ended = bind-Holds (Tracks Kind.subagent_ended e s) _ _ (λ a n_a.
      demand-Holds (Tracks Kind.subagent_ended e s) _ _ _ _
        (λ g0. subagent_ended-Moves s e a n_a g0))
  handle-Tracks Kind.subagent_created = bind-Holds (Tracks Kind.subagent_created e s) _ _ (λ a n_a.
      demand-Holds (Tracks Kind.subagent_created e s) _ _ _ _
        (λ g0. subagent_created-Moves s e a n_a g0))
  handle-Tracks Kind.subagent_followup =
      bind-Holds (Tracks Kind.subagent_followup e s) _ _ (λ child n_child.
        bind-Holds (Tracks Kind.subagent_followup e s) _ _ (λ a n_a.
          demand-Holds (Tracks Kind.subagent_followup e s) _ _ _ _ (λ g0.
            demand-Holds (Tracks Kind.subagent_followup e s) _ _ _ _
              (λ g1. subagent_followup-Moves s e child a n_a g1))))
  handle-Tracks Kind.subagent_turn_started =
      bind-Holds (Tracks Kind.subagent_turn_started e s) _ _ (λ child n_child.
        bind-Holds (Tracks Kind.subagent_turn_started e s) _ _ (λ a n_a.
          bind-Holds (Tracks Kind.subagent_turn_started e s) _ _ (λ turn n_turn.
            demand-Holds (Tracks Kind.subagent_turn_started e s) _ _ _ _ (λ g0.
              demand-Holds (Tracks Kind.subagent_turn_started e s) _ _ _ _
                (λ g1. subagent_turn_started-Moves s e child turn a n_a g0)))))
  handle-Tracks Kind.subagent_report =
      bind-Holds (Tracks Kind.subagent_report e s) _ _ (λ child n_child.
        bind-Holds (Tracks Kind.subagent_report e s) _ _ (λ a n_a.
          demand-Holds (Tracks Kind.subagent_report e s) _ _ _ _ (λ g0. subagent_report-Tracks)))
  handle-Tracks Kind.subagent_turn_ended =
      bind-Holds (Tracks Kind.subagent_turn_ended e s) _ _ (λ child n_child.
        bind-Holds (Tracks Kind.subagent_turn_ended e s) _ _ (λ turn n_turn.
          demand-Holds (Tracks Kind.subagent_turn_ended e s) _ _ _ _ (λ g0.
            subagent_turn_ended-Tracks (erase child s.open_turns) (add turn s.closed_turns))))
  handle-Tracks Kind.subagent_settled = bind-Holds (Tracks Kind.subagent_settled e s) _ _ (λ a n_a.
      demand-Holds (Tracks Kind.subagent_settled e s) _ _ _ _
        (λ g0. subagent_settled-Moves s e a n_a g0))
  handle-Tracks Kind.model_request = bind-Holds (Tracks Kind.model_request e s) _ _ (λ a n_a.
      demand-Holds (Tracks Kind.model_request e s) _ _ _ _ (λ g0.
        demand-Holds (Tracks Kind.model_request e s) _ _ _ _
          (λ g1. model_request-Moves s e a n_a g0)))
  handle-Tracks Kind.model_terminal = bind-Holds (Tracks Kind.model_terminal e s) _ _ (λ a n_a.
      demand-Holds (Tracks Kind.model_terminal e s) _ _ _ _
        (λ g0. model_terminal-Moves s e a n_a g0))
  handle-Tracks Kind.other = other-Tracks
