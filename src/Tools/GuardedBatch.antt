-- ===== src/Tools/GuardedBatch.antt =====
-- The log of src/aegisrun/tools/pipeline.py where the handlers of a batch run.
use equi_seek.Prelude.{Bool, true, false, List, [], ◌∷◌, ◌++◌, inr, if◌then◌else◌}
use equi_seek.Dict.{Dict}
use equi_seek.Tools.Spec.{ToolSpec, ToolResult, Result}
use equi_seek.Tools.Actions.{
  ToolExecutionContext, LogEntry, Surroundings, Run, Action, next, observed,
}
use equi_seek.Tools.Pipeline.{ToolInvocation, Caller, prepare, record_result, short_text}
use equi_seek.Tools.Batch.{
  ToolInvocationOutcome, Prepared, failed_outcome, outcome_of, contexts, caught, execute_outcome,
  prepare_one, prepare_all, note_runs, collect, execute_safe_group, flush_safe_group, run_call,
  run_calls, execute_batch, is_concurrency_safe,
}
use equi_seek.Tools.Counts.{Post, next-Post, observed-Quiet, next-Quiet, Quiet}
use equi_seek.Tools.Cleared.{
  Grows, IsCleared, IsGuarded, IsSafe, Grows-IsCleared, Clears, prepare-Clears,
}
use equi_seek.Tools.Guarded.{Guarded, record_result-Guarded, execute_outcome-Guarded}

module _ (X : Surroundings) (tools : Dict ToolSpec) (who : Caller) where
  open X use {has_events, gather}

  abbrev AllCleared : List ToolExecutionContext → List LogEntry → Type 0
  AllCleared [] log = Unit
  AllCleared (c ∷ cs) log = IsCleared X tools who log c × AllCleared cs log

  Grows-AllCleared :
      (before after : List LogEntry) (cs : List ToolExecutionContext)
      → Grows before after
      → AllCleared cs before
      → AllCleared cs after
  Grows-AllCleared before after [] g h = tt
  Grows-AllCleared before after (c ∷ cs) g (h, hs) =
      (Grows-IsCleared X tools who before after c g h, Grows-AllCleared before after cs g hs)

  -- the contexts of the group are cleared
  abbrev IsReady : List LogEntry → List ToolExecutionContext → List LogEntry → Type 0
  IsReady before cs l = IsSafe X tools who before l × AllCleared cs l

  caught-Ready :
      (before : List LogEntry) (call : ToolInvocation) (p : Result ToolExecutionContext × Run X)
      → Clears X tools who before p
      → Post X
          (λ x l. IsReady before (contexts (x ∷ [])) l)
          (λ e l. IsSafe X tools who before l)
          (caught X tools (Prepared.ready call) (Prepared.refused call) p)
  unfolding contexts
  caught-Ready before call (Result.done c, r) h = (h.0, (h.1, tt))
  caught-Ready before call (Result.raised e, r) h =
      elim e.is_exception
        as (λ b.
          Post X (λ x l. IsReady before (contexts (x ∷ [])) l) (λ y l. IsSafe X tools who before l)
            ((if b then Result.done (Prepared.refused call e) else Result.raised e), r)) [
              | true ↦ (h, tt)
              | false ↦ h
            ]

  cons-Ready :
      (before mid after : List LogEntry) (p : Prepared) (ps : List Prepared)
      → IsReady before (contexts (p ∷ [])) mid
      → IsReady mid (contexts ps) after
      → IsReady before (contexts (p ∷ ps)) after
  unfolding contexts
  cons-Ready before mid after (Prepared.ready call c) ps ((g, safe), (one, u)) ((g', safe'), rest) =
      (((λ e w. g' e (g e w)), safe'), (Grows-IsCleared X tools who mid after c g' one, rest))
  cons-Ready before mid after (Prepared.refused call e) ps ((g, safe), u) ((g', safe'), rest) =
      (((λ x w. g' x (g x w)), safe'), rest)

  prepare_all-Ready :
      (calls : List ToolInvocation) (r : Run X)
      → (Guarded X tools who) r.log
      → Post X
          (λ ps l. IsReady r.log (contexts ps) l)
          (λ e l. (Guarded X tools who) l)
          (prepare_all X tools calls who r)
  unfolding prepare_all prepare_one contexts
  prepare_all-Ready [] r h = (((λ e w. w), h), tt)
  prepare_all-Ready (call ∷ calls) r h =
      next-Post X (λ p l. IsReady r.log (contexts (p ∷ [])) l) (λ e l. IsSafe X tools who r.log l) _
        _ _ _
        (caught-Ready r.log call (prepare X tools call who r) (prepare-Clears X tools who call r h))
        (λ p s q.
          next-Post X (λ ps l. IsReady s.log (contexts ps) l) (λ e l. (Guarded X tools who) l)
            (λ ps l. IsReady r.log (contexts ps) l) (λ e l. (Guarded X tools who) l)
            (prepare_all X tools calls who s) (λ ps t. (Result.done (p ∷ ps), t))
            (prepare_all-Ready calls s q.0.1) (λ ps t q'. cons-Ready r.log s.log t.log p ps q q')
            (λ e l z. z))
        (λ e l z. z.1)

  note_runs-Guarded :
      (cs : List ToolExecutionContext) (r : Run X)
      → AllCleared cs r.log
      → (Guarded X tools who) r.log
      → Quiet X (Guarded X tools who) (note_runs X tools cs r)
  unfolding note_runs
  note_runs-Guarded [] r hs h = h
  note_runs-Guarded (c ∷ cs) r (one, hs) h =
      note_runs-Guarded cs (record r { log = LogEntry.ran c ∷ r.log })
        (Grows-AllCleared r.log (LogEntry.ran c ∷ r.log) cs (λ e w. inr w) hs) (one, h)

  collect-Guarded :
      (ps : List Prepared) (results : List (Result ToolResult)) (r : Run X)
      → (Guarded X tools who) r.log
      → Quiet X (Guarded X tools who) (collect X tools ps results r)
  unfolding collect
  collect-Guarded [] results r h = h
  collect-Guarded (Prepared.refused call e ∷ ps) results r h =
      next-Quiet X (Guarded X tools who) (collect X tools ps results r)
        (λ rest s. (Result.done (failed_outcome call.call_id (short_text X tools e) ∷ rest), s))
        (collect-Guarded ps results r h) (λ rest s q. q)
  collect-Guarded (Prepared.ready call c ∷ ps) [] r h = h
  collect-Guarded (Prepared.ready call c ∷ ps) (x ∷ xs) r h =
      next-Quiet X (Guarded X tools who) (record_result X tools c x r)
        (λ u s.
          next X (λ rest t. (Result.done (outcome_of X tools call.call_id c x ∷ rest), t))
            (collect X tools ps xs s))
        (record_result-Guarded X tools who c x r h)
        (λ u s q.
          next-Quiet X (Guarded X tools who) (collect X tools ps xs s)
            (λ rest t. (Result.done (outcome_of X tools call.call_id c x ∷ rest), t))
            (collect-Guarded ps xs s q) (λ rest t z. z))

  left_over :
      (p : Result (List ToolInvocationOutcome) × Run X)
      → Quiet X (Guarded X tools who) p
      → (Guarded X tools who) p.1.log
  left_over (Result.done xs, r) h = h
  left_over (Result.raised e, r) h = h

  run_group : List Prepared → Action X (List ToolInvocationOutcome)
  run_group ps s =
      next X
        (λ u t.
          next X (λ results v. collect X tools ps results v)
            (observed X (gather (contexts ps) t.world) t.log))
        (note_runs X tools (contexts ps) s)

  run_group-Guarded :
      (ps : List Prepared) (s : Run X)
      → AllCleared (contexts ps) s.log
      → (Guarded X tools who) s.log
      → Quiet X (Guarded X tools who) (run_group ps s)
  unfolding run_group
  run_group-Guarded ps s hs h =
      next-Quiet X (Guarded X tools who) (note_runs X tools (contexts ps) s)
        (λ u t.
          next X (λ results v. collect X tools ps results v)
            (observed X (gather (contexts ps) t.world) t.log))
        (note_runs-Guarded (contexts ps) s hs h)
        (λ u t q.
          next-Quiet X (Guarded X tools who) (observed X (gather (contexts ps) t.world) t.log)
            (λ results v. collect X tools ps results v)
            (observed-Quiet X (Guarded X tools who) (gather (contexts ps) t.world) t.log q)
            (λ results v z. collect-Guarded ps results v z))

  execute_safe_group-Guarded :
      (calls : List ToolInvocation) (r : Run X)
      → (Guarded X tools who) r.log
      → Quiet X (Guarded X tools who) (execute_safe_group X tools calls who r)
  unfolding execute_safe_group run_group
  execute_safe_group-Guarded calls r h =
      next-Post X (λ ps l. IsReady r.log (contexts ps) l) (λ e l. (Guarded X tools who) l)
        (λ xs l. (Guarded X tools who) l) (λ e l. (Guarded X tools who) l)
        (prepare_all X tools calls who r) (λ ps s. run_group ps s) (prepare_all-Ready calls r h)
        (λ ps s q. run_group-Guarded ps s q.1 q.0.1) (λ e l z. z)

  flush_safe_group-Guarded :
      (group : List ToolInvocation) (r : Run X)
      → (Guarded X tools who) r.log
      → Quiet X (Guarded X tools who) (flush_safe_group X tools group who r)
  unfolding flush_safe_group
  flush_safe_group-Guarded [] r h = h
  flush_safe_group-Guarded (call ∷ calls) r h = execute_safe_group-Guarded (call ∷ calls) r h

  abbrev Rest : Type 0
  Rest = List ToolInvocation → List ToolInvocationOutcome → Action X (List ToolInvocationOutcome)

  abbrev KeepsGuarded : Rest → Type 0
  KeepsGuarded rest =
      (group : List ToolInvocation) (outcomes : List ToolInvocationOutcome) (r : Run X)
      → (Guarded X tools who) r.log
      → Quiet X (Guarded X tools who) (rest group outcomes r)

  run_call-Guarded :
      (b : Bool) (call : ToolInvocation) (rest : Rest)
      → KeepsGuarded rest
      → KeepsGuarded (run_call X tools b call who rest)
  unfolding run_call
  run_call-Guarded true call rest k group outcomes r h = k (group ++ (call ∷ [])) outcomes r h
  run_call-Guarded false call rest k group outcomes r h =
      next-Quiet X (Guarded X tools who) (flush_safe_group X tools group who r)
        (λ more s.
          next X (λ x. rest [] (outcomes ++ more ++ (x ∷ []))) (execute_outcome X tools call who s))
        (flush_safe_group-Guarded group r h)
        (λ more s q.
          next-Quiet X (Guarded X tools who) (execute_outcome X tools call who s)
            (λ x. rest [] (outcomes ++ more ++ (x ∷ [])))
            (execute_outcome-Guarded X tools who call s q)
            (λ x t z. k [] (outcomes ++ more ++ (x ∷ [])) t z))

  run_calls-Guarded : (calls : List ToolInvocation) → KeepsGuarded (run_calls X tools calls who)
  unfolding run_calls
  run_calls-Guarded [] group outcomes r h =
      next-Quiet X (Guarded X tools who) (flush_safe_group X tools group who r)
        (λ more s. (Result.done (outcomes ++ more), s)) (flush_safe_group-Guarded group r h)
        (λ more s q. q)
  run_calls-Guarded (call ∷ calls) group outcomes r h =
      run_call-Guarded (is_concurrency_safe X tools call who) call (run_calls X tools calls who)
        (run_calls-Guarded calls) group outcomes r h

  -- Let each handler that was run so far have been cleared before: the policy allows a name under which
  -- its tool is registered, the tool's schema accepts the arguments, and if there is an event store, it
  -- has a policy decision that allows the call, and the tool/call event. Then the same holds after
  -- execute_batch, whether it returns or raises.
  pub execute_batch-IsGuarded :
      (calls : List ToolInvocation) (r : Run X)
      → IsGuarded X tools who r.log
      → IsGuarded X tools who (execute_batch X tools calls who r).1.log
  unfolding execute_batch
  execute_batch-IsGuarded calls r h =
      left_over (run_calls X tools calls who [] [] r) (run_calls-Guarded calls [] [] r h)
