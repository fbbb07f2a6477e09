-- ===== src/Harness/Lifecycle/Ownership.antt =====
-- How the ids of `lifecycle_invariant` in src/aegisrun/harness/invariants.py belong to each other:
-- steps to turns, and follow-ups and turns of a continuable child to that child.
use equi_seek.Prelude.{
  String, ◌≡◌, refl, true, Option, none, some, List, [], ◌∷◌, elem, arith, inl, inr, Option-cases,
  eq_iff, subst,
}
use equi_seek.Dict.{Dict, lookup}
use equi_seek.Harness.Checked.{
  ok, Holds, Holds-ok, bind-Holds, demand-Holds, ◌>>=◌, Checked-cases, ok-injective,
}
use equi_seek.Harness.Events.{AgentEvent, is_text}
use equi_seek.Harness.Sets.{
  Apart, Within, Owned, Keyed, Apart-add_left, Apart-add_right, Apart-remove, Within-add_right,
  Within-add_left, Owned-insert, Owned-erase, Owned-add, Owned-remove, Keyed-insert, Keyed-erase,
  Keyed-add,
}
use equi_seek.Harness.Lifecycle.State.{Lifecycle, Kind, kind_of, initial}
use equi_seek.Harness.Lifecycle.Handlers.{handle, in_set, open_step}
use equi_seek.Harness.Lifecycle.Loop.{run}

pub record IsOwned (turns : List String) (steps : Dict String)
    (children ended continuable settled : List String) (followups child_turns : Dict String)
    : Type 0 where
  pub steps_in_turns : Owned steps turns
  pub apart_from_open : Apart continuable children
  pub apart_from_closed : Apart continuable ended
  pub settled_within : Within settled continuable
  pub followups_of_children : Owned followups continuable
  pub turns_of_children : Keyed child_turns continuable

-- An open step belongs to an open turn, a continuable child is no one-shot child, only a
-- continuable child is settled, has follow-ups and has an open turn.
abbrev pub IsConsistent : Lifecycle → Type 0
IsConsistent s =
    IsOwned s.open_agent_turns s.open_agent_steps s.open_children s.closed_children
      s.continuable_children s.settled_continuable_children s.followups s.open_turns

module _ (s : Lifecycle) (e : AgentEvent) (h : IsConsistent s) where
  -- the turn that a follow-up starts is one of the child that the follow-up is for
  started_child :
      (child id : String)
      → is_text (lookup id s.followups) child ≡ true
      → elem child s.continuable_children ≡ true
  started_child child id m = elim (Option-cases (lookup id s.followups)) [
    | inl n ↦ absurd (ground arith)
    | inr (w, found) ↦ ground (arith, h.followups_of_children id w found, eq_iff w child)
  ]

  opened_step :
      (id : String) (t : Option String)
      → in_set t s.open_agent_turns ≡ true
      → Owned (open_step id t s.open_agent_steps) s.open_agent_turns
  opened_step id none i = absurd (ground arith)
  opened_step id (some turn) i =
      Owned-insert id turn s.open_agent_steps s.open_agent_turns i h.steps_in_turns

  pub handle-IsConsistent : (k : Kind) → Holds IsConsistent (handle k s e)
  unfolding handle
  handle-IsConsistent Kind.turn_started = bind-Holds IsConsistent _ _ (λ a n_a.
      demand-Holds IsConsistent _ _ _ _ (λ g0. demand-Holds IsConsistent _ _ _ _ (λ g1. record {
        steps_in_turns = Owned-add "" a s.open_agent_steps s.open_agent_turns h.steps_in_turns;
        apart_from_open = h.apart_from_open;
        apart_from_closed = h.apart_from_closed;
        settled_within = h.settled_within;
        followups_of_children = h.followups_of_children;
        turns_of_children = h.turns_of_children;
      })))
  handle-IsConsistent Kind.step_started = bind-Holds IsConsistent _ _ (λ a n_a.
      demand-Holds IsConsistent _ _ _ _ (λ g0. demand-Holds IsConsistent _ _ _ _ (λ g1.
        demand-Holds IsConsistent _ _ _ _ (λ g2. record {
          steps_in_turns = opened_step a e.turn_id g1;
          apart_from_open = h.apart_from_open;
          apart_from_closed = h.apart_from_closed;
          settled_within = h.settled_within;
          followups_of_children = h.followups_of_children;
          turns_of_children = h.turns_of_children;
        }))))
  handle-IsConsistent Kind.step_ended = bind-Holds IsConsistent _ _ (λ a n_a.
      demand-Holds IsConsistent _ _ _ _ (λ g0. record {
        steps_in_turns = Owned-erase a "" s.open_agent_steps s.open_agent_turns h.steps_in_turns;
        apart_from_open = h.apart_from_open;
        apart_from_closed = h.apart_from_closed;
        settled_within = h.settled_within;
        followups_of_children = h.followups_of_children;
        turns_of_children = h.turns_of_children;
      }))
  handle-IsConsistent Kind.turn_ended = bind-Holds IsConsistent _ _ (λ a n_a.
      demand-Holds IsConsistent _ _ _ _ (λ g0. demand-Holds IsConsistent _ _ _ _ (λ g1. record {
        steps_in_turns =
            Owned-remove "" a s.open_agent_steps s.open_agent_turns (ground arith) h.steps_in_turns;
        apart_from_open = h.apart_from_open;
        apart_from_closed = h.apart_from_closed;
        settled_within = h.settled_within;
        followups_of_children = h.followups_of_children;
        turns_of_children = h.turns_of_children;
      })))
  handle-IsConsistent Kind.session_ended = demand-Holds IsConsistent _ _ _ _ (λ g0. h)
  handle-IsConsistent Kind.request_header =
      bind-Holds IsConsistent _ _ (λ a n_a. demand-Holds IsConsistent _ _ _ _ (λ g0. h))
  handle-IsConsistent Kind.tool_call =
      bind-Holds IsConsistent _ _ (λ a n_a. demand-Holds IsConsistent _ _ _ _ (λ g0. h))
  handle-IsConsistent Kind.tool_result =
      bind-Holds IsConsistent _ _ (λ a n_a. demand-Holds IsConsistent _ _ _ _ (λ g0. h))
  handle-IsConsistent Kind.subagent_started = bind-Holds IsConsistent _ _ (λ a n_a.
      demand-Holds IsConsistent _ _ _ _ (λ g0. record {
        steps_in_turns = h.steps_in_turns;
        apart_from_open =
            Apart-add_right a s.continuable_children s.open_children (ground arith)
              h.apart_from_open;
        apart_from_closed = h.apart_from_closed;
        settled_within = h.settled_within;
        followups_of_children = h.followups_of_children;
        turns_of_children = h.turns_of_children;
      }))
  handle-IsConsistent Kind.subagent_ended = bind-Holds IsConsistent _ _ (λ a n_a.
      demand-Holds IsConsistent _ _ _ _ (λ g0. record {
        steps_in_turns = h.steps_in_turns;
        apart_from_open = Apart-remove a s.continuable_children s.open_children h.apart_from_open;
        apart_from_closed =
            Apart-add_right a s.continuable_children s.closed_children
              (ground (arith, h.apart_from_open a)) h.apart_from_closed;
        settled_within = h.settled_within;
        followups_of_children = h.followups_of_children;
        turns_of_children = h.turns_of_children;
      }))
  handle-IsConsistent Kind.subagent_created = bind-Holds IsConsistent _ _ (λ a n_a.
      demand-Holds IsConsistent _ _ _ _ (λ g0. record {
        steps_in_turns = h.steps_in_turns;
        apart_from_open =
            Apart-add_left a s.continuable_children s.open_children (ground arith)
              h.apart_from_open;
        apart_from_closed =
            Apart-add_left a s.continuable_children s.closed_children (ground arith)
              h.apart_from_closed;
        settled_within =
            Within-add_right a s.settled_continuable_children s.continuable_children
              h.settled_within;
        followups_of_children =
            Owned-add "" a s.followups s.continuable_children h.followups_of_children;
        turns_of_children = Keyed-add "" a s.open_turns s.continuable_children h.turns_of_children;
      }))
  handle-IsConsistent Kind.subagent_followup = bind-Holds IsConsistent _ _ (λ child n_child.
      bind-Holds IsConsistent _ _ (λ a n_a. demand-Holds IsConsistent _ _ _ _ (λ g0.
        demand-Holds IsConsistent _ _ _ _ (λ g1. record {
          steps_in_turns = h.steps_in_turns;
          apart_from_open = h.apart_from_open;
          apart_from_closed = h.apart_from_closed;
          settled_within = h.settled_within;
          followups_of_children =
              Owned-insert a child s.followups s.continuable_children (ground arith)
                h.followups_of_children;
          turns_of_children = h.turns_of_children;
        }))))
  handle-IsConsistent Kind.subagent_turn_started = bind-Holds IsConsistent _ _ (λ child n_child.
      bind-Holds IsConsistent _ _ (λ a n_a. bind-Holds IsConsistent _ _ (λ turn n_turn.
        demand-Holds IsConsistent _ _ _ _ (λ g0. demand-Holds IsConsistent _ _ _ _ (λ g1. record {
          steps_in_turns = h.steps_in_turns;
          apart_from_open = h.apart_from_open;
          apart_from_closed = h.apart_from_closed;
          settled_within = h.settled_within;
          followups_of_children = h.followups_of_children;
          turns_of_children =
              Keyed-insert child turn s.open_turns s.continuable_children
                (started_child child a (ground arith)) h.turns_of_children;
        })))))
  handle-IsConsistent Kind.subagent_report = bind-Holds IsConsistent _ _ (λ child n_child.
      bind-Holds IsConsistent _ _ (λ a n_a. demand-Holds IsConsistent _ _ _ _ (λ g0. h)))
  handle-IsConsistent Kind.subagent_turn_ended = bind-Holds IsConsistent _ _ (λ child n_child.
      bind-Holds IsConsistent _ _ (λ turn n_turn. demand-Holds IsConsistent _ _ _ _ (λ g0. record {
        steps_in_turns = h.steps_in_turns;
        apart_from_open = h.apart_from_open;
        apart_from_closed = h.apart_from_closed;
        settled_within = h.settled_within;
        followups_of_children = h.followups_of_children;
        turns_of_children =
            Keyed-erase child turn s.open_turns s.continuable_children h.turns_of_children;
      })))
  handle-IsConsistent Kind.subagent_settled = bind-Holds IsConsistent _ _ (λ a n_a.
      demand-Holds IsConsistent _ _ _ _ (λ g0. record {
        steps_in_turns = h.steps_in_turns;
        apart_from_open = h.apart_from_open;
        apart_from_closed = h.apart_from_closed;
        settled_within =
            Within-add_left a s.settled_continuable_children s.continuable_children (ground arith)
              h.settled_within;
        followups_of_children = h.followups_of_children;
        turns_of_children = h.turns_of_children;
      }))
  handle-IsConsistent Kind.model_request = bind-Holds IsConsistent _ _ (λ a n_a.
      demand-Holds IsConsistent _ _ _ _ (λ g0. demand-Holds IsConsistent _ _ _ _ (λ g1. h)))
  handle-IsConsistent Kind.model_terminal =
      bind-Holds IsConsistent _ _ (λ a n_a. demand-Holds IsConsistent _ _ _ _ (λ g0. h))
  handle-IsConsistent Kind.other = h

initial-IsConsistent : IsConsistent initial
unfolding elem lookup
initial-IsConsistent = record {
  steps_in_turns = λ k v e. absurd (ground arith);
  apart_from_open = λ c m. refl;
  apart_from_closed = λ c m. refl;
  settled_within = λ c m. m;
  followups_of_children = λ k v e. absurd (ground arith);
  turns_of_children = λ k v e. absurd (ground arith);
}

run_from-IsConsistent :
    (s s' : Lifecycle) (es : List AgentEvent) → run s es ≡ ok s' → IsConsistent s → IsConsistent s'
unfolding run ◌>>=◌
run_from-IsConsistent s s' [] h i = subst IsConsistent (ok-injective s s' h) i
run_from-IsConsistent s s' (e ∷ es) h i = elim (Checked-cases (handle (kind_of e.event_type) s e)) [
  | inl (t, eq) ↦ run_from-IsConsistent t s' es (subst (λ c. (c >>= λ u. run u es) ≡ ok s') eq h) (
      Holds-ok IsConsistent (handle (kind_of e.event_type) s e) t eq
        (handle-IsConsistent s e i (kind_of e.event_type)))
  | inr (o, m, eq) ↦ absurd (ground arith)
]

-- In the state that the check reaches on events that it accepts: an open step belongs to an open
-- turn; no continuable child is a one-shot child; only continuable children are settled, have
-- follow-ups and have open turns.
pub run-IsConsistent :
    (events : List AgentEvent) (s : Lifecycle) → run initial events ≡ ok s → IsConsistent s
run-IsConsistent events s h = run_from-IsConsistent initial s events h initial-IsConsistent
