-- ===== src/Tools/Singles.antt =====
-- A single call of src/aegisrun/tools/pipeline.py, and its outcome.
use equi_seek.Prelude.{◌≡◌, refl, Bool, true, false, List, [], ◌∷◌, arith, if◌then◌else◌}
use equi_seek.Dict.{Dict}
use equi_seek.Tools.Spec.{ToolSpec, ToolResult, Raised, Result}
use equi_seek.Tools.Actions.{ToolExecutionContext, LogEntry, Surroundings, Run, observed}
use equi_seek.Tools.Pipeline.{ToolInvocation, Caller, invoke, settle_result, execute}
use equi_seek.Tools.Batch.{Prepared, contexts, caught, execute_outcome, prepare_one}
use equi_seek.Tools.Counts.{call_count, result_count, Silent, Post, next-Post}
use equi_seek.Tools.Checks.{Called, prepare-Prepares}
use equi_seek.Tools.Paired.{Owes, IsReliable, record_result-Owes}

module _ (X : Surroundings) (tools : Dict ToolSpec) (L : IsReliable X tools) where
  open X use {World, has_events, append, gather, handler}

  Called-Owes :
      (before after : List LogEntry) (c : ToolExecutionContext)
      → Called X tools before c after
      → Owes X tools (c ∷ []) before after
  Called-Owes before after c h id = omega (arith, (h id).0, (h id).1)

  Silent-Owes : (before after : List LogEntry) → Silent before after → Owes X tools [] before after
  Silent-Owes before after h id = omega (arith, (h id).0, (h id).1)

  caught_either :
      {B : Type 0} (Q' : B → List LogEntry → Type 0) (e : Raised) (x : B) (r : Run X) (b : Bool)
      → e.is_exception ≡ b
      → Q' x r.log
      → Post X Q'
          (λ y l. y.is_exception ≡ false)
          ((if b then Result.done x else Result.raised e), r)
  caught_either Q' e x r true is_one h = h
  caught_either Q' e x r false is_one h = is_one

  pub caught-Post :
      {A B : Type 0} (Q : A → List LogEntry → Type 0) (R : Raised → List LogEntry → Type 0)
      (Q' : B → List LogEntry → Type 0) (f : A → B) (g : Raised → B) (p : Result A × Run X)
      → Post X Q R p
      → ((a : A) (l : List LogEntry) → Q a l → Q' (f a) l)
      → ((e : Raised) (l : List LogEntry) → R e l → Q' (g e) l)
      → Post X Q' (λ e l. e.is_exception ≡ false) (caught X tools f g p)
  caught-Post Q R Q' f g (Result.done a, r) h k j = k a r.log h
  caught-Post Q R Q' f g (Result.raised e, r) h k j =
      caught_either Q' e (g e) r e.is_exception refl (j e r.log h)

  settle-Post :
      (before : List LogEntry) (c : ToolExecutionContext) (p : Result ToolResult × Run X)
      → Owes X tools (c ∷ []) before p.1.log
      → Post X
          (λ x l. Owes X tools [] before l)
          (λ e l. Owes X tools [] before l)
          (settle_result X tools c p)
  settle-Post before c (Result.done x, r) h =
      next-Post X (λ u l. Owes X tools [] before l) (λ e l. ⊥) _ _ _ _
        (record_result-Owes X tools L c [] (Result.done x) before r h) (λ u s q. q)
        (λ e l q. absurd q)
  settle-Post before c (Result.raised e, r) h =
      next-Post X (λ u l. Owes X tools [] before l) (λ e l. ⊥) _ _ _ _
        (record_result-Owes X tools L c [] (Result.raised e) before r h) (λ u s q. q)
        (λ e l q. absurd q)

  pub ran_Owes :
      (before log : List LogEntry) (c : ToolExecutionContext) (cs : List ToolExecutionContext)
      → Owes X tools cs before log
      → Owes X tools cs before (LogEntry.ran c ∷ log)
  unfolding call_count result_count
  ran_Owes before log c cs h = h

  observed-Owes :
      {A : Type 0} (cs : List ToolExecutionContext) (before log : List LogEntry)
      (p : Result A × World)
      → Owes X tools cs before log
      → Owes X tools cs before (observed X p log).1.log
  observed-Owes cs before log (x, w) h = h

  invoke-Owes :
      (before : List LogEntry) (c : ToolExecutionContext) (r : Run X)
      → Owes X tools (c ∷ []) before r.log
      → Owes X tools (c ∷ []) before (invoke X tools c r).1.log
  unfolding invoke
  invoke-Owes before c r h =
      observed-Owes (c ∷ []) before (LogEntry.ran c ∷ r.log) (handler c r.world)
        (ran_Owes before r.log c (c ∷ []) h)

  pub execute-Owes :
      (call : ToolInvocation) (who : Caller) (r : Run X)
      → Post X
          (λ x l. Owes X tools [] r.log l)
          (λ e l. Owes X tools [] r.log l)
          (execute X tools call who r)
  unfolding execute
  execute-Owes call who r =
      next-Post X (λ c l. Called X tools r.log c l) (λ x l. Silent r.log l) _ _ _ _
        (prepare-Prepares X tools call who r)
        (λ c s q.
          settle-Post r.log c (invoke X tools c s)
            (invoke-Owes r.log c s (Called-Owes r.log s.log c q)))
        (λ e l q. Silent-Owes r.log l q)

  -- the outcome is that of the call, and nothing is owed
  pub execute_outcome-Owes :
      (call : ToolInvocation) (who : Caller) (r : Run X)
      → Post X
          (λ x l. (x.call_id ≡ call.call_id) × Owes X tools [] r.log l)
          (λ e l. e.is_exception ≡ false)
          (execute_outcome X tools call who r)
  unfolding execute_outcome
  execute_outcome-Owes call who r =
      caught-Post _ _ (λ x l. (x.call_id ≡ call.call_id) × Owes X tools [] r.log l) _ _ _
        (execute-Owes call who r) (λ x l q. (refl, q)) (λ e l q. (refl, q))

  abbrev pub invocation : Prepared → ToolInvocation
  invocation (Prepared.ready call c) = call
  invocation (Prepared.refused call e) = call

  pub prepare_one-Owes :
      (call : ToolInvocation) (who : Caller) (r : Run X)
      → Post X
          (λ p l. (invocation p ≡ call) × Owes X tools (contexts (p ∷ [])) r.log l)
          (λ e l. e.is_exception ≡ false)
          (prepare_one X tools call who r)
  unfolding prepare_one contexts
  prepare_one-Owes call who r =
      caught-Post _ _ (λ p l. (invocation p ≡ call) × Owes X tools (contexts (p ∷ [])) r.log l) _ _
        _ (prepare-Prepares X tools call who r) (λ c l q. (refl, Called-Owes r.log l c q))
        (λ e l q. (refl, Silent-Owes r.log l q))
