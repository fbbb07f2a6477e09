-- ===== src/Tools/Batch.antt =====
-- `execute_batch` of `ToolPipeline` in src/aegisrun/tools/pipeline.py.
use equi_seek.Prelude.{
  String, Bool, true, false, not, ◌&&◌, Option, none, some, List, [], ◌∷◌, ◌++◌, elem,
  if◌then◌else◌,
}
use equi_seek.Dict.{Dict}
use equi_seek.Tools.Spec.{ToolSpec, ToolResult, Raised, Result, get_tool}
use equi_seek.Tools.Actions.{
  ToolExecutionContext, LogEntry, Surroundings, Run, Action, ◌>>=◌, give, raise, ask_world, note,
}
use equi_seek.Tools.Pipeline.{
  ToolInvocation, Caller, prepare, record_result, execute, short_text, error_text,
}

pub record ToolInvocationOutcome : Type 0 where
  pub call_id : String
  pub result : Option ToolResult
  pub error : Option String

-- a call with what `_prepare` gave for it
pub data Prepared : Type 0 where
  ready : ToolInvocation → ToolExecutionContext → Prepared
  refused : ToolInvocation → Raised → Prepared

abbrev pub succeeded_outcome : String → ToolResult → ToolInvocationOutcome
succeeded_outcome call_id x = record { call_id = call_id; result = some x; error = none }

abbrev pub failed_outcome : String → String → ToolInvocationOutcome
failed_outcome call_id text = record { call_id = call_id; result = none; error = some text }

-- the contexts that there are
unfoldable pub contexts : List Prepared → List ToolExecutionContext
contexts [] = []
contexts (Prepared.ready call c ∷ ps) = c ∷ contexts ps
contexts (Prepared.refused call e ∷ ps) = contexts ps

module _ (X : Surroundings) (tools : Dict ToolSpec) where
  open X use {gather}

  -- `except Exception`, which lets cancellation through
  abbrev pub caught : {A B : Type 0} → (A → B) → (Raised → B) → Result A × Run X → Result B × Run X
  caught f g (Result.done a, r) = (Result.done (f a), r)
  caught f g (Result.raised e, r) =
      (if e.is_exception then Result.done (g e) else Result.raised e, r)

  -- `_execute_outcome`
  unfoldable pub execute_outcome : ToolInvocation → Caller → Action X ToolInvocationOutcome
  execute_outcome call who r =
      caught (succeeded_outcome call.call_id)
        (λ e. failed_outcome call.call_id (short_text X tools e)) (execute X tools call who r)

  unfoldable pub prepare_one : ToolInvocation → Caller → Action X Prepared
  prepare_one call who r =
      caught (Prepared.ready call) (Prepared.refused call) (prepare X tools call who r)

  unfoldable pub prepare_all : List ToolInvocation → Caller → Action X (List Prepared)
  prepare_all [] who = give X []
  prepare_all (call ∷ calls) who =
      ◌>>=◌ X (prepare_one call who) (λ p. ◌>>=◌ X (prepare_all calls who) (λ ps. give X (p ∷ ps)))

  unfoldable pub note_runs : List ToolExecutionContext → Action X (Unit {0})
  note_runs [] = give X tt
  note_runs (c ∷ cs) = ◌>>=◌ X (note X (LogEntry.ran c)) (λ noted. note_runs cs)

  abbrev pub outcome_of : String → ToolExecutionContext → Result ToolResult → ToolInvocationOutcome
  outcome_of call_id c (Result.done x) = succeeded_outcome call_id x
  outcome_of call_id c (Result.raised e) = failed_outcome call_id (error_text X tools c e)

  -- `next(results)` with no result left, in a coroutine
  abbrev pub no_result : Raised
  no_result = record { class_name = "RuntimeError"; message = ""; is_exception = true }

  -- the last loop of `_execute_safe_group`
  unfoldable pub collect :
      List Prepared → List (Result ToolResult) → Action X (List ToolInvocationOutcome)
  collect [] results = give X []
  collect (Prepared.refused call e ∷ ps) results =
      ◌>>=◌ X (collect ps results)
        (λ rest. give X (failed_outcome call.call_id (short_text X tools e) ∷ rest))
  collect (Prepared.ready call c ∷ ps) [] = raise X no_result
  collect (Prepared.ready call c ∷ ps) (x ∷ xs) =
      ◌>>=◌ X (record_result X tools c x)
        (λ stored. ◌>>=◌ X (collect ps xs) (λ rest. give X (outcome_of call.call_id c x ∷ rest)))

  -- `_execute_safe_group`
  unfoldable pub execute_safe_group :
      List ToolInvocation → Caller → Action X (List ToolInvocationOutcome)
  execute_safe_group calls who = ◌>>=◌ X (prepare_all calls who) (λ ps.
      ◌>>=◌ X (note_runs (contexts ps))
        (λ noted. ◌>>=◌ X (ask_world X (gather (contexts ps))) (λ results. collect ps results)))

  abbrev pub is_safe_spec : String → Caller → Result ToolSpec → Bool
  is_safe_spec name who (Result.done spec) =
      spec.concurrency_safe && not spec.side_effect && not (elem name who.policy.approval_required)
  is_safe_spec name who (Result.raised e) = false

  abbrev pub is_concurrency_safe : ToolInvocation → Caller → Bool
  is_concurrency_safe call who = is_safe_spec call.name who (get_tool call.name tools)

  -- `flush_safe_group`
  unfoldable pub flush_safe_group :
      List ToolInvocation → Caller → Action X (List ToolInvocationOutcome)
  flush_safe_group [] who = give X []
  flush_safe_group (call ∷ calls) who = execute_safe_group (call ∷ calls) who

  -- one turn of the loop, with the turns that follow it
  unfoldable pub run_call :
      Bool
      → ToolInvocation
      → Caller
      → (List ToolInvocation → List ToolInvocationOutcome → Action X (List ToolInvocationOutcome))
      → (safe_group : List ToolInvocation) → (outcomes : List ToolInvocationOutcome)
      → Action X (List ToolInvocationOutcome)
  run_call true call who rest group outcomes = rest (group ++ (call ∷ [])) outcomes
  run_call false call who rest group outcomes =
      ◌>>=◌ X (flush_safe_group group who)
        (λ more. ◌>>=◌ X (execute_outcome call who) (λ x. rest [] (outcomes ++ more ++ (x ∷ []))))

  -- the loop, with the safe group and the outcomes so far
  unfoldable pub run_calls :
      List ToolInvocation
      → Caller
      → (safe_group : List ToolInvocation) → (outcomes : List ToolInvocationOutcome)
      → Action X (List ToolInvocationOutcome)
  run_calls [] who group outcomes =
      ◌>>=◌ X (flush_safe_group group who) (λ more. give X (outcomes ++ more))
  run_calls (call ∷ calls) who group outcomes =
      run_call (is_concurrency_safe call who) call who (run_calls calls who) group outcomes

  -- `execute_batch`
  unfoldable pub execute_batch :
      List ToolInvocation → Caller → Action X (List ToolInvocationOutcome)
  execute_batch calls who = run_calls calls who [] []
