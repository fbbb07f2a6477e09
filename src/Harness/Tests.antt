-- ===== src/Harness/Tests.antt =====
-- A small event stream, what the checks do on it, and the theorems at it.
use equi_seek.Prelude.{
  ℕ, String, ◌≡◌, refl, none, some, List, [], ◌∷◌, ◌++◌, ◌≤◌, ◌<◌, elem, ◌↔◌, false,
}
use equi_seek.Dict.{Dict, lookup, insert, erase, keys, any_value}
use equi_seek.Data.Json.{Value, Items, Fields}
use equi_seek.Data.Text.{strip}
use equi_seek.Harness.Checked.{ok, violated, ◌>>=◌, demand}
use equi_seek.Harness.Events.{AgentEvent, identity}
use equi_seek.Harness.Sets.{add, remove}
use equi_seek.Harness.Lifecycle.{
  Lifecycle, kind_of, initial, Family, handle, run, lifecycle_invariant,
}
use equi_seek.Harness.Lifecycle.Stream.{
  begin_count, end_count, lifecycle_invariant_orders, lifecycle_invariant_closes,
}
use equi_seek.Harness.Lifecycle.Ownership.{IsConsistent, run-IsConsistent}
use equi_seek.Harness.Session.{
  session_invariant, session_from, session_invariant_iff, IsOneStream, element,
}
use equi_seek.Harness.Surface.{
  surface_invariant, check_event, check_message, check_replace, natural, Numbered,
  surface_replacements,
}
use equi_seek.Harness.Registry.{
  Outcome, InvariantRegistry, empty_registry, added, new_handle, register, dispose,
  default_invariants,
}
use equi_seek.Harness.Registered.{dispose-register, dispose_again, default_invariants_lem, verdict}

-- an event of a session's only turn and step
abbrev event : ℕ → String → Dict Value → AgentEvent
event seq event_type payload = record {
  run_id = "r";
  session_id = "s";
  seq = seq;
  event_type = event_type;
  schema_version = 1;
  created_at = "2026-01-01T00:00:00+00:00";
  source = record { kind = "runtime"; actor_id = none; form = none };
  payload = payload;
  parent_session_id = none;
  turn_id = some "t";
  step_id = some "p";
  task_id = none;
}

abbrev named : String → String → Dict Value
named key id = (key, Value.str id) ∷ []

abbrev work : List AgentEvent
work =
    event 1 "turn/started" (named "turn_id" "t")
    ∷ event 2 "step/started" (named "step_id" "p")
    ∷ event 3 "tool/call" (named "call_id" "c")
    ∷ event 4 "tool/result" (named "call_id" "c")
    ∷ event 5 "step/ended" (named "step_id" "p")
    ∷ event 6 "turn/ended" (named "turn_id" "t")
    ∷ []

abbrev session_end : AgentEvent
session_end = event 7 "session/ended" []

work_accepted : lifecycle_invariant (work ++ session_end ∷ []) ≡ ok tt
unfolding lifecycle_invariant run ◌>>=◌ handle demand kind_of identity lookup elem keys insert erase
    any_value add remove
work_accepted = refl

second_result_refused :
    lifecycle_invariant (work ++ event 7 "tool/result" (named "call_id" "c") ∷ [])
    ≡ violated "tool" "orphan or duplicate tool result"
unfolding lifecycle_invariant run ◌>>=◌ handle demand kind_of identity lookup elem keys insert erase
    any_value add remove
second_result_refused = refl

lifecycle_invariant_orders_example :
    (end_count Family.tool "c" work ≤ begin_count Family.tool "c" work)
    × (begin_count Family.tool "c" work ≤ 1)
lifecycle_invariant_orders_example =
    lifecycle_invariant_orders work (session_end ∷ []) work_accepted Family.tool "c"

lifecycle_invariant_closes_example :
    end_count Family.step "p" work ≡ begin_count Family.step "p" work
lifecycle_invariant_closes_example =
    lifecycle_invariant_closes work [] session_end work_accepted refl Family.step refl "p"

abbrev started : Lifecycle
started = record initial { open_agent_turns = "t" ∷ [] }

turn_opened : run initial (event 1 "turn/started" (named "turn_id" "t") ∷ []) ≡ ok started
unfolding run ◌>>=◌ handle demand kind_of identity lookup elem add
turn_opened = refl

run-IsConsistent_example : IsConsistent started
run-IsConsistent_example =
    run-IsConsistent (event 1 "turn/started" (named "turn_id" "t") ∷ []) started turn_opened

abbrev with_role : Dict Value
with_role =
    ("role", Value.str "user") ∷ ("content", Value.arr (Items.cons (Value.str "hi") Items.nil)) ∷ []

abbrev replacement : AgentEvent
replacement = event 2 "surface/replace" (
    ("start_seq", Value.int false 1)
    ∷ ("end_seq", Value.int false 1)
    ∷ ("message", Value.obj Fields.end)
    ∷ [])

abbrev talk : List AgentEvent
talk = event 1 "user/message" with_role ∷ replacement ∷ []

session_invariant_iff_example : (session_invariant work ≡ ok tt) ↔ IsOneStream work
session_invariant_iff_example = session_invariant_iff work

one_session : session_invariant talk ≡ ok tt
unfolding session_invariant session_from demand
one_session = refl

good_surface : surface_invariant talk ≡ ok tt
unfolding surface_invariant check_event check_message check_replace demand ◌>>=◌ lookup
good_surface = refl

second : element talk 1 ≡ some replacement
unfolding element
second = refl

surface_replacements_example :
    (a : ℕ) × (b : ℕ) × (natural (lookup "start_seq" replacement.payload) ≡ some a)
    × (natural (lookup "end_seq" replacement.payload) ≡ some b)
    × (a ≤ b)
    × (b < replacement.seq)
    × Numbered talk a
    × Numbered talk b
surface_replacements_example =
    surface_replacements talk one_session good_surface 1 replacement second refl

default_invariants_lem_example :
    verdict work default_invariants
    ≡ some
        (session_invariant work >>= λ a. (lifecycle_invariant work >>= λ b. surface_invariant work))
default_invariants_lem_example = default_invariants_lem work

abbrev accept : List AgentEvent → Outcome
accept events = Outcome.passed

abbrev one_check : InvariantRegistry
one_check = added "budget" accept empty_registry

registered :
    register "budget" accept empty_registry ≡ some (one_check, new_handle "budget" empty_registry)
unfolding register strip elem keys
registered = refl

dispose-register_example :
    (dispose (new_handle "budget" empty_registry) one_check).0.registrations ≡ []
dispose-register_example =
    dispose-register "budget" accept empty_registry one_check (new_handle "budget" empty_registry)
      registered

abbrev refuse : List AgentEvent → Outcome
refuse events = Outcome.broken "budget" "no"

abbrev emptied : InvariantRegistry
emptied = record { registrations = []; next_token = 1 }

abbrev second_check : InvariantRegistry
second_check = added "budget" refuse emptied

registered_again :
    register "budget" refuse (dispose (new_handle "budget" empty_registry) one_check).0
    ≡ some (second_check, new_handle "budget" emptied)
unfolding register dispose strip elem keys lookup insert erase
registered_again = refl

dispose_again_example :
    ((dispose (dispose (new_handle "budget" empty_registry) one_check).1 one_check).0 ≡ one_check)
    × ((dispose (new_handle "budget" empty_registry) second_check).0 ≡ second_check)
    × ((dispose (new_handle "budget" emptied) second_check).0.registrations ≡ [])
dispose_again_example =
    dispose_again "budget" accept refuse empty_registry one_check second_check one_check
      (new_handle "budget" empty_registry) (new_handle "budget" emptied) registered registered_again
