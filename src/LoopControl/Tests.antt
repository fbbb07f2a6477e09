-- ===== src/LoopControl/Tests.antt =====
-- A harness with one tool, and the theorems at it.
use equi_seek.Prelude.{
  ◌+◌, ◌≡◌, ◌↔◌, refl, true, [], ◌∷◌, elem, any, arith, ℕ, String, List, length, nat_eq,
  if◌then◌else◌,
}
use equi_seek.Data.Json.{Value, Fields}
use equi_seek.Data.Text.{lstrip, prefix, starts_with, is_space}
use equi_seek.Harness.Checked.{ok, demand, ◌>>=◌}
use equi_seek.Harness.Store.Json.{get}
use equi_seek.LoopControl.Replace.{
  squeeze, joined_words, read_status, read_item, read_items, replace_plan,
}
use equi_seek.LoopControl.Bounded.{IsPlan, replace_plan_lem}
use equi_seek.LoopControl.State.{
  ItemStatus, PlanOwner, ToolCallGuardDecision, AgentLoopHarness, before_tool, after_tool,
  is_threshold, start_matching_plan_item, start_item, pause_all,
}
use equi_seek.LoopControl.Plan.{IsFocused, tool_call-IsFocused}
use equi_seek.LoopControl.Guard.{Calls, replay, is_usable, streak, before_tool_reminds}

abbrev harness : AgentLoopHarness
harness = record {
  repeat_reminder_thresholds = 3 ∷ 5 ∷ 8 ∷ [];
  catalog = "web" ∷ "files" ∷ [];
  promoted = "web" ∷ [];
  last_call_fingerprint = "";
  consecutive_repeat_count = 0;
  repeat_reminders = 0;
  guard_violations = 0;
  plan_revision = 1;
  plan_owner = PlanOwner.runtime;
  plan =
      record { id = "a"; title = "A"; status = ItemStatus.in_progress; tool = ""; detail = "" }
      ∷ record { id = "b"; title = "B"; status = ItemStatus.pending; tool = "web"; detail = "" }
      ∷ [];
}

abbrev twice : Calls
twice = ("web", "x") ∷ ("files", "y") ∷ ("web", "x") ∷ []

third_reminded :
    (before_tool "web" "x" (replay twice harness)).0
    ≡ ToolCallGuardDecision.repeated_tool_call_reminder
unfolding replay before_tool elem any is_threshold start_matching_plan_item start_item pause_all
third_reminded = refl

before_tool_reminds_example :
    ((before_tool "web" "x" (replay twice harness)).0
      ≡ ToolCallGuardDecision.repeated_tool_call_reminder)
    ↔ ((is_usable "web" harness ≡ true)
        × (is_threshold (1 + streak "x" twice harness) (3 ∷ 5 ∷ 8 ∷ []) ≡ true))
before_tool_reminds_example = before_tool_reminds harness refl twice "web" "x"

one_active : IsFocused harness
one_active = omega arith

tool_call-IsFocused_example :
    IsFocused (before_tool "web" "x" harness).1 × IsFocused (after_tool "web" true "done" harness)
tool_call-IsFocused_example = tool_call-IsFocused harness one_active "web" "x" "done" true

abbrev text_of : Value → String
text_of (Value.str s) = s
text_of v = ""

abbrev decimal : ℕ → String
decimal n = if nat_eq n 1 then "1" else "2"

-- one item without an id, and one in progress
abbrev sent : List Fields
sent =
    Fields.field "title" (Value.str " read   the filings ") Fields.end
    ∷ Fields.field "title" (Value.str "report") (
        Fields.field "status" (Value.str "in_progress")
          (Fields.field "tool" (Value.str "files") Fields.end))
    ∷ []

abbrev replaced : AgentLoopHarness
replaced = record harness {
  plan =
      record {
        id = "task-1";
        title = "read the filings";
        status = ItemStatus.pending;
        tool = "";
        detail = "";
      }
      ∷ record {
        id = "task-2";
        title = "report";
        status = ItemStatus.in_progress;
        tool = "files";
        detail = "";
      }
      ∷ [];
  plan_owner = PlanOwner.model;
  plan_revision = 2;
}

accepted : replace_plan text_of decimal sent harness ≡ ok replaced
unfolding replace_plan read_items read_item read_status demand ◌>>=◌ get joined_words squeeze lstrip
    prefix starts_with is_space elem
accepted = refl

replace_plan_lem_example :
    IsPlan (length sent) replaced.plan
    × (replaced ≡ record harness {
      plan = replaced.plan;
      plan_owner = PlanOwner.model;
      plan_revision = harness.plan_revision + 1;
    })
replace_plan_lem_example = replace_plan_lem text_of decimal sent harness replaced accepted
