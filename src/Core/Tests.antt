-- ===== src/Core/Tests.antt =====
-- Runs and budgets at concrete inputs.
use equi_seek.Prelude.{◌≤◌, String, ◌≡◌, refl, true, none, some, List, [], ◌∷◌, ◌↔◌}
use equi_seek.Dict.{lookup, insert}
use equi_seek.Core.Domain.{
  RunStatus, allowed_transitions, status_in, assert_transition, default_snapshot, unused,
}
use equi_seek.Core.Transitions.{stay, Leads-from_terminal}
use equi_seek.Core.Balance.{IsRun, visits, IsRun-bounds}
use equi_seek.Core.Budget.{
  BudgetExceeded, Consume, consume, consume_all, consume_model_turn, consume_tool_call,
}
use equi_seek.Core.Totals.{turns, tools, bytes_of, repeats}
use equi_seek.Core.Limits.{consume_all_iff}

starts : assert_transition RunStatus.queued RunStatus.running ≡ true
unfolding assert_transition allowed_transitions status_in
starts = refl

succeeds : assert_transition RunStatus.running RunStatus.succeeded ≡ true
unfolding assert_transition allowed_transitions status_in
succeeds = refl

abbrev whole_run : List RunStatus
whole_run = RunStatus.succeeded ∷ RunStatus.running ∷ RunStatus.queued ∷ []

whole_run-IsRun : IsRun whole_run
whole_run-IsRun =
    IsRun.steps RunStatus.running RunStatus.succeeded (RunStatus.queued ∷ [])
      (IsRun.steps RunStatus.queued RunStatus.running [] IsRun.starts starts) succeeds

IsRun-bounds_example :
    ((visits whole_run).running ≤ (visits whole_run).queued)
    × ((visits whole_run).stopped ≤ (visits whole_run).running)
IsRun-bounds_example = IsRun-bounds whole_run whole_run-IsRun

Leads-from_terminal_example : RunStatus.failed ≡ RunStatus.failed
Leads-from_terminal_example = Leads-from_terminal (stay RunStatus.failed) refl

abbrev calls : List Consume
calls = Consume.turn ∷ Consume.tool "read" 10 ∷ Consume.tool "read" 20 ∷ Consume.output 5 ∷ []

abbrev too_many : List Consume
too_many =
    Consume.tool "read" 1
    ∷ Consume.tool "read" 1
    ∷ Consume.tool "read" 1
    ∷ Consume.tool "read" 1
    ∷ Consume.turn
    ∷ []

fourth_refused :
    (consume_all default_snapshot too_many unused).0 ≡ some BudgetExceeded.repeated_limit
unfolding consume_all consume consume_tool_call consume_model_turn lookup insert
fourth_refused = refl

consume_all_iff_example : ((consume_all default_snapshot calls unused).0 ≡ none) ↔ (
    (turns calls ≤ 12)
    × (tools calls ≤ 20)
    × (bytes_of calls ≤ 64000)
    × ((key : String) → repeats key calls ≤ 3))
consume_all_iff_example = consume_all_iff default_snapshot calls
