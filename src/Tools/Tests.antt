-- ===== src/Tools/Tests.antt =====
-- Surroundings with two tools and a hook that denies one of them, and a batch of calls.
use equi_seek.Prelude.{
  ℕ, ◌+◌, String, ◌==◌, ◌≡◌, refl, Bool, true, false, none, List, [], ◌∷◌, length, map, elem, arith,
  if◌then◌else◌,
}
use equi_seek.Data.Json.{Value, Fields}
use equi_seek.Data.Text.{prefix}
use equi_seek.Dict.{Dict, lookup}
use equi_seek.Tools.Spec.{RiskLevel, ToolSpec, ToolResult, Result, get_tool, validate_call}
use equi_seek.Tools.Actions.{
  ToolPolicyAction, ToolPolicyDecision, ToolExecutionContext, Surroundings, Run, emit,
}
use equi_seek.Tools.Pipeline.{
  ToolInvocation, Caller, ask_hooks, approve, admit, prepare, invoke, execute,
}
use equi_seek.Tools.Batch.{
  ToolInvocationOutcome, contexts, execute_outcome, prepare_one, prepare_all, note_runs, collect,
  execute_safe_group, flush_safe_group, run_call, run_calls, execute_batch,
}
use equi_seek.Tools.Counts.{call_count, result_count, Post}
use equi_seek.Tools.Paired.{IsReliable}
use equi_seek.Tools.Answered.{execute_batch-IsAnswered}
use equi_seek.Tools.Cleared.{IsGuarded}
use equi_seek.Tools.GuardedBatch.{execute_batch-IsGuarded}

abbrev spec : String → Bool → ToolSpec
spec name safe = record {
  name = name;
  version = "1";
  description = "";
  input_schema = Value.null;
  risk = RiskLevel.low;
  side_effect = false;
  timeout_seconds = 30;
  required_capabilities = [];
  concurrency_safe = safe;
}

abbrev tools : Dict ToolSpec
tools = ("read", spec "read" true) ∷ ("write", spec "write" false) ∷ []

abbrev fine : ToolResult
fine = record {
  summary = "done";
  content = Value.null;
  artifact_id = none;
  external_reference = none;
}

abbrev all_fine : List ToolExecutionContext → List (Result ToolResult)
all_fine [] = []
all_fine (c ∷ cs) = Result.done fine ∷ all_fine cs

length-all_fine : (cs : List ToolExecutionContext) → length (all_fine cs) ≡ length cs
length-all_fine [] = refl
length-all_fine (c ∷ cs) = omega (arith, length-all_fine cs)

abbrev hook : ToolExecutionContext → ℕ → Result ToolPolicyDecision × ℕ
hook c w = (
  Result.done (
      if c.call_id == "b"
      then record { action = ToolPolicyAction.deny; reason = "not now" }
      else record { action = ToolPolicyAction.allow; reason = "" }),
  w + 1,
)

abbrev desk : Surroundings
desk = record {
  World = ℕ;
  first_error = λ schema arguments. none;
  policy_hooks = hook ∷ [];
  approval_hook = none;
  handler = λ c w. (Result.done fine, w);
  gather = λ cs w. (Result.done (all_fine cs), w);
  has_events = true;
  append = λ e w. (none, w);
  uuid = λ w. ("fresh", w);
  decimal = λ n. "";
}

abbrev desk-IsReliable : IsReliable desk tools
desk-IsReliable = record {
  stores_results = λ c x w. refl;
  gathers_all = λ cs w. length-all_fine cs;
}

abbrev call : String → String → ToolInvocation
call name call_id = record { name = name; arguments = Value.obj Fields.end; call_id = call_id }

abbrev who : Caller
who = record {
  policy = record { allowed_tools = "read" ∷ "write" ∷ []; approval_required = [] };
  agent_id = "agent";
  task_id = none;
}

abbrev start : Run desk
start = record { world = 0; log = [] }

abbrev batch : List ToolInvocation
batch = call "read" "a" ∷ call "read" "b" ∷ call "write" "c" ∷ call "other" "d" ∷ []

-- two calls are let through, one is denied and one names no tool
counts :
    (call_count "a" (execute_batch desk tools batch who start).1.log ≡ 1)
    × (call_count "b" (execute_batch desk tools batch who start).1.log ≡ 0)
unfolding execute_batch run_calls run_call flush_safe_group execute_safe_group collect note_runs
    prepare_all prepare_one execute_outcome execute invoke prepare admit approve ask_hooks emit
    validate_call get_tool lookup contexts call_count prefix elem
counts = (refl, refl)

execute_batch-IsAnswered_example :
    Post desk
      (λ xs log.
        (map (λ (x : ToolInvocationOutcome). x.call_id) xs
          ≡ map (λ (c : ToolInvocation). c.call_id) batch)
        × ((id : String)
            → call_count id log + result_count id [] ≡ call_count id [] + result_count id log))
      (λ e log. e.is_exception ≡ false)
      (execute_batch desk tools batch who start)
execute_batch-IsAnswered_example =
    execute_batch-IsAnswered desk tools desk-IsReliable batch who start

execute_batch-IsGuarded_example :
    IsGuarded desk tools who (execute_batch desk tools batch who start).1.log
execute_batch-IsGuarded_example = execute_batch-IsGuarded desk tools who batch start tt
