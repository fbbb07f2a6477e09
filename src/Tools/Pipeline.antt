-- ===== src/Tools/Pipeline.antt =====
-- `ToolPipeline` of src/aegisrun/tools/pipeline.py: one call, from the checks to the result.
use Prim.Native.String.{◌++◌}
use equi_seek.Prelude.{
  String, ◌==◌, Bool, true, false, Option, none, some, List, [], ◌∷◌, elem, if◌then◌else◌,
}
use equi_seek.Data.Json.{Value}
use equi_seek.Data.Text.{prefix}
use equi_seek.Dict.{Dict}
use equi_seek.Tools.Spec.{
  ToolSpec, ToolResult, Raised, Result, ToolPolicy, policy_denied, validate_call,
}
use equi_seek.Tools.Actions.{
  ToolPolicyAction, ToolPolicyDecision, ToolExecutionContext, LogEntry, Surroundings, Run, Action,
  ◌>>=◌, give, raise, ask_world, note, emit,
}

pub record ToolInvocation : Type 0 where
  pub name : String
  pub arguments : Value
  pub call_id : String

-- the arguments that all calls of a batch share
pub record Caller : Type 0 where
  pub policy : ToolPolicy
  pub agent_id : String
  pub task_id : Option String

abbrev pub approval_required : String → Raised
approval_required message = record {
  class_name = "ApprovalRequiredError";
  message = message;
  is_exception = true;
}

module _ (X : Surroundings) (tools : Dict ToolSpec) where
  open X use {World, policy_hooks, approval_hook, handler, uuid, decimal, first_error}

  -- a policy hook that decides: a denial ends the loop, the last question stays
  abbrev pub heed :
      ToolExecutionContext → Option String → ToolPolicyAction → String → Action X (Option String)
  heed c asked ToolPolicyAction.allow reason = give X asked
  heed c asked ToolPolicyAction.ask reason = give X (some reason)
  heed c asked ToolPolicyAction.deny reason =
      ◌>>=◌ X (emit X (LogEntry.decided c ToolPolicyAction.deny reason))
        (λ stored. raise X (policy_denied reason))

  unfoldable pub ask_hooks :
      ToolExecutionContext
      → Option String
      → List (ToolExecutionContext → World → Result ToolPolicyDecision × World)
      → Action X (Option String)
  ask_hooks c asked [] = give X asked
  ask_hooks c asked (hook ∷ hooks) =
      ◌>>=◌ X (ask_world X (hook c))
        (λ d. ◌>>=◌ X (heed c asked d.action d.reason) (λ now. ask_hooks c now hooks))

  -- `if name in policy.approval_required and ask_reason is None`
  abbrev pub question : String → ToolPolicy → Option String → Option String
  question name policy (some reason) = some reason
  question name policy none =
      if elem name policy.approval_required then some "tool requires explicit approval" else none

  abbrev pub answered : ToolExecutionContext → String → Bool → Action X (Unit {0})
  answered c reason true =
      emit X (LogEntry.decided c ToolPolicyAction.allow ("approved: " ++ reason))
  answered c reason false =
      ◌>>=◌ X (emit X (LogEntry.decided c ToolPolicyAction.deny "tool approval was rejected"))
        (λ stored. raise X (policy_denied "tool approval was rejected"))

  abbrev pub put :
      Option (ToolExecutionContext → String → World → Result Bool × World)
      → ToolExecutionContext
      → String
      → Action X (Unit {0})
  put none c reason =
      ◌>>=◌ X (emit X (LogEntry.decided c ToolPolicyAction.ask reason))
        (λ stored. raise X (approval_required reason))
  put (some hook) c reason = ◌>>=◌ X (ask_world X (hook c reason)) (answered c reason)

  unfoldable pub approve : ToolExecutionContext → Option String → Action X (Unit {0})
  approve c none =
      emit X (LogEntry.decided c ToolPolicyAction.allow "all tool policy checks passed")
  approve c (some reason) = put approval_hook c reason

  abbrev pub with_id : String → Action X String
  with_id call_id r =
      if call_id == ""
      then (Result.done (uuid r.world).0, record r { world = (uuid r.world).1 })
      else (Result.done call_id, r)

  abbrev pub context_of : ToolInvocation → Caller → ToolSpec → String → ToolExecutionContext
  context_of call who spec call_id = record {
    call_id = call_id;
    agent_id = who.agent_id;
    task_id = who.task_id;
    tool = spec;
    arguments = call.arguments;
  }

  abbrev pub checked : Result ToolSpec → Action X ToolSpec
  checked (Result.done spec) = give X spec
  checked (Result.raised e) = raise X e

  -- the hooks, the approval and the event of the call
  unfoldable pub admit : String → ToolPolicy → ToolExecutionContext → Action X ToolExecutionContext
  admit name policy c = ◌>>=◌ X (ask_hooks c none policy_hooks) (λ asked.
      ◌>>=◌ X (approve c (question name policy asked))
        (λ allowed. ◌>>=◌ X (emit X (LogEntry.called c name)) (λ stored. give X c)))

  -- `_prepare`
  unfoldable pub prepare : ToolInvocation → Caller → Action X ToolExecutionContext
  prepare call who =
      ◌>>=◌ X (checked (validate_call first_error call.name call.arguments who.policy tools))
        (λ spec.
          ◌>>=◌ X (with_id call.call_id)
            (λ call_id. admit call.name who.policy (context_of call who spec call_id)))

  -- `_invoke`
  unfoldable pub invoke : ToolExecutionContext → Action X ToolResult
  invoke c = ◌>>=◌ X (note X (LogEntry.ran c)) (λ noted. ask_world X (handler c))

  -- `_record_result`
  abbrev pub record_result : ToolExecutionContext → Result ToolResult → Action X (Unit {0})
  record_result c x = emit X (LogEntry.ended c x)

  -- the result is recorded, and then returned or raised
  abbrev pub settle_result :
      ToolExecutionContext → Result ToolResult × Run X → Result ToolResult × Run X
  settle_result c (Result.done x, r) =
      ◌>>=◌ X (record_result c (Result.done x)) (λ stored. give X x) r
  settle_result c (Result.raised e, r) =
      ◌>>=◌ X (record_result c (Result.raised e)) (λ stored. raise X e) r

  -- `execute`
  unfoldable pub execute : ToolInvocation → Caller → Action X ToolResult
  execute call who = ◌>>=◌ X (prepare call who) (λ c r. settle_result c (invoke c r))

  -- `f"{type(error).__name__}: {error}"[:2_000]`
  abbrev pub short_text : Raised → String
  short_text e = prefix 2000 (e.class_name ++ ": " ++ e.message)

  -- `_error_text`
  abbrev pub error_text : ToolExecutionContext → Raised → String
  error_text c e =
      if e.class_name == "TimeoutError"
      then "tool timed out after " ++ decimal c.tool.timeout_seconds ++ "s"
      else short_text e
