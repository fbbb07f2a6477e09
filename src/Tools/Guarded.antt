-- ===== src/Tools/Guarded.antt =====
-- The log of src/aegisrun/tools/pipeline.py where the handler of a single call runs.
use equi_seek.Prelude.{true, false, List, ◌∷◌, if◌then◌else◌}
use equi_seek.Dict.{Dict}
use equi_seek.Tools.Spec.{ToolSpec, ToolResult, Raised, Result}
use equi_seek.Tools.Actions.{ToolExecutionContext, LogEntry, Surroundings, Run, observed}
use equi_seek.Tools.Pipeline.{
  ToolInvocation, Caller, invoke, record_result, settle_result, execute, short_text,
}
use equi_seek.Tools.Batch.{succeeded_outcome, failed_outcome, caught, execute_outcome}
use equi_seek.Tools.Counts.{next-Post, emit-Quiet, next-Quiet, Quiet}
use equi_seek.Tools.Cleared.{IsCleared, IsGuarded, IsSafe, prepare-Clears}

module _ (X : Surroundings) (tools : Dict ToolSpec) (who : Caller) where
  open X use {World, has_events, gather, handler}

  abbrev pub Guarded : List LogEntry → Type 0
  Guarded log = IsGuarded X tools who log

  pub record_result-Guarded :
      (c : ToolExecutionContext) (x : Result ToolResult) (r : Run X)
      → Guarded r.log
      → Quiet X Guarded (record_result X tools c x r)
  record_result-Guarded c x r h =
      emit-Quiet X Guarded (LogEntry.ended c x) r
        (elim has_events as (λ b. Guarded (if b then LogEntry.ended c x ∷ r.log else r.log)) [
          | true ↦ h
          | false ↦ h
        ])
        h

  settle-Guarded :
      (c : ToolExecutionContext) (p : Result ToolResult × Run X)
      → Guarded p.1.log
      → Quiet X Guarded (settle_result X tools c p)
  settle-Guarded c (Result.done x, r) h =
      next-Quiet X Guarded (record_result X tools c (Result.done x) r) (λ u s. (Result.done x, s))
        (record_result-Guarded c (Result.done x) r h) (λ u s q. q)
  settle-Guarded c (Result.raised e, r) h =
      next-Quiet X Guarded (record_result X tools c (Result.raised e) r)
        (λ u s. (Result.raised e, s)) (record_result-Guarded c (Result.raised e) r h) (λ u s q. q)

  observed-Guarded :
      {A : Type 0} (p : Result A × World) (log : List LogEntry)
      → Guarded log
      → Guarded (observed X p log).1.log
  observed-Guarded (x, w) log h = h

  execute-Guarded :
      (call : ToolInvocation) (r : Run X)
      → Guarded r.log
      → Quiet X Guarded (execute X tools call who r)
  unfolding execute invoke
  execute-Guarded call r h =
      next-Post X (λ c l. IsSafe X tools who r.log l × IsCleared X tools who l c)
        (λ e l. IsSafe X tools who r.log l) _ _ _ _ (prepare-Clears X tools who call r h)
        (λ c s q.
          settle-Guarded c _
            (observed-Guarded (handler c s.world) (LogEntry.ran c ∷ s.log) (q.1, q.0.1)))
        (λ e l q. q.1)

  caught-Quiet :
      {A B : Type 0} (f : A → B) (g : Raised → B) (p : Result A × Run X)
      → Quiet X Guarded p
      → Quiet X Guarded (caught X tools f g p)
  caught-Quiet f g (Result.done a, r) h = h
  caught-Quiet {A} {B} f g (Result.raised e, r) h =
      elim e.is_exception
        as (λ b. Quiet X Guarded ((if b then Result.done (g e) else Result.raised e), r)) [
          | true ↦ h
          | false ↦ h
        ]

  pub execute_outcome-Guarded :
      (call : ToolInvocation) (r : Run X)
      → Guarded r.log
      → Quiet X Guarded (execute_outcome X tools call who r)
  unfolding execute_outcome
  execute_outcome-Guarded call r h =
      caught-Quiet (succeeded_outcome call.call_id)
        (λ e. failed_outcome call.call_id (short_text X tools e)) (execute X tools call who r)
        (execute-Guarded call r h)
