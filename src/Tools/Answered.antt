-- ===== src/Tools/Answered.antt =====
-- The answers to the calls of a batch of src/aegisrun/tools/pipeline.py.
use equi_seek.Prelude.{
  ◌+◌, String, ◌≡◌, refl, sym, ap, ◌∙◌, Bool, true, false, List, [], ◌∷◌, ◌++◌, arith, subst, map,
}
use equi_seek.Dict.{Dict}
use equi_seek.Tools.Spec.{ToolSpec}
use equi_seek.Tools.Actions.{LogEntry, Surroundings, Run, Action}
use equi_seek.Tools.Pipeline.{ToolInvocation, Caller}
use equi_seek.Tools.Batch.{
  ToolInvocationOutcome, run_call, run_calls, execute_batch, is_concurrency_safe,
}
use equi_seek.Tools.Counts.{call_count, result_count, Post, weaken-Post}
use equi_seek.Tools.Paired.{Owes, IsReliable}
use equi_seek.Tools.Singles.{execute_outcome-Owes}
use equi_seek.Tools.Groups.{
  Cancelled, debts_add, debts_start, call_ids, asked_ids, IsAnswered, next-Cancelled,
  flush_safe_group-Owes,
}

call_ids-append :
    (xs ys : List ToolInvocationOutcome)
    → map (λ (x : ToolInvocationOutcome). x.call_id) (xs ++ ys)
      ≡ map (λ (x : ToolInvocationOutcome). x.call_id) xs
        ++ map (λ (x : ToolInvocationOutcome). x.call_id) ys
call_ids-append [] ys = refl
call_ids-append (x ∷ xs) ys = ap (λ (l : List String). x.call_id ∷ l) (call_ids-append xs ys)

asked_ids-append :
    (xs ys : List ToolInvocation)
    → map (λ (x : ToolInvocation). x.call_id) (xs ++ ys)
      ≡ map (λ (x : ToolInvocation). x.call_id) xs ++ map (λ (x : ToolInvocation). x.call_id) ys
asked_ids-append [] ys = refl
asked_ids-append (x ∷ xs) ys = ap (λ (l : List String). x.call_id ∷ l) (asked_ids-append xs ys)

append_assoc : (xs ys zs : List String) → (xs ++ ys) ++ zs ≡ xs ++ (ys ++ zs)
append_assoc [] ys zs = refl
append_assoc (x ∷ xs) ys zs = ap (λ (l : List String). x ∷ l) (append_assoc xs ys zs)

append_nil : (xs : List String) → xs ++ [] ≡ xs
append_nil [] = refl
append_nil (x ∷ xs) = ap (λ (l : List String). x ∷ l) (append_nil xs)

module _ (X : Surroundings) (tools : Dict ToolSpec) (L : IsReliable X tools) where
  abbrev outcome_ids : List ToolInvocationOutcome → List String
  outcome_ids xs = call_ids X tools L xs

  abbrev invocation_ids : List ToolInvocation → List String
  invocation_ids calls = asked_ids X tools L calls

  -- the rest of the loop answers the group and the calls after the outcomes
  abbrev Answers :
      List ToolInvocation
      → (List ToolInvocation → List ToolInvocationOutcome → Action X (List ToolInvocationOutcome))
      → Type 0
  Answers calls rest =
      (group : List ToolInvocation) (outcomes : List ToolInvocationOutcome) (before : List LogEntry)
      (r : Run X)
      → Owes X tools [] before r.log
      → Post X
          (IsAnswered X tools L
            (outcome_ids outcomes ++ (invocation_ids group ++ invocation_ids calls)) before)
          (Cancelled X tools L) (rest group outcomes r)

  ids_after :
      (outcomes more : List ToolInvocationOutcome) (x : ToolInvocationOutcome)
      (group : List ToolInvocation) (call : ToolInvocation) (calls : List ToolInvocation)
      → outcome_ids more ≡ invocation_ids group
      → x.call_id ≡ call.call_id
      → outcome_ids (outcomes ++ more ++ (x ∷ [])) ++ (invocation_ids [] ++ invocation_ids calls)
        ≡ outcome_ids outcomes ++ (invocation_ids group ++ invocation_ids (call ∷ calls))
  ids_after outcomes more x group call calls e f = simp (call_ids-append, append_assoc, e, f) refl

  run_call-Answers :
      (b : Bool) (call : ToolInvocation) (calls : List ToolInvocation) (who : Caller)
      (rest : List ToolInvocation
        → List ToolInvocationOutcome
        → Action X (List ToolInvocationOutcome))
      → Answers calls rest
      → Answers (call ∷ calls) (run_call X tools b call who rest)
  unfolding run_call
  run_call-Answers true call calls who rest h group outcomes before r o =
      subst
        (λ (ids : List String).
          Post X (IsAnswered X tools L (outcome_ids outcomes ++ ids) before) (Cancelled X tools L)
            (rest (group ++ (call ∷ [])) outcomes r))
        (ap (λ (l : List String). l ++ invocation_ids calls) (asked_ids-append group (call ∷ []))
          ∙ append_assoc (invocation_ids group) (call.call_id ∷ []) (invocation_ids calls))
        (h (group ++ (call ∷ [])) outcomes before r o)
  run_call-Answers false call calls who rest h group outcomes before r o =
      next-Cancelled X tools L (IsAnswered X tools L (invocation_ids group) r.log)
        (IsAnswered X tools L
          (outcome_ids outcomes ++ (invocation_ids group ++ invocation_ids (call ∷ calls))) before)
        _ _ (flush_safe_group-Owes X tools L group who r)
        (λ more s q.
          next-Cancelled X tools L (λ x l. (x.call_id ≡ call.call_id) × Owes X tools [] s.log l)
            (IsAnswered X tools L
              (outcome_ids outcomes ++ (invocation_ids group ++ invocation_ids (call ∷ calls)))
              before)
            _ _ (execute_outcome-Owes X tools L call who s)
            (λ x t q'.
              subst
                (λ (ids : List String).
                  Post X (IsAnswered X tools L ids before) (Cancelled X tools L)
                    (rest [] (outcomes ++ more ++ (x ∷ [])) t))
                (ids_after outcomes more x group call calls q.0 q'.0)
                (h [] (outcomes ++ more ++ (x ∷ [])) before t (
                  debts_add X tools L [] [] before s.log t.log
                    (debts_add X tools L [] [] before r.log s.log o q.1) q'.1))))

  run_calls-Answers :
      (calls : List ToolInvocation) (who : Caller) → Answers calls (run_calls X tools calls who)
  unfolding run_calls
  run_calls-Answers [] who group outcomes before r o =
      next-Cancelled X tools L (IsAnswered X tools L (invocation_ids group) r.log)
        (IsAnswered X tools L (outcome_ids outcomes ++ (invocation_ids group ++ [])) before) _ _
        (flush_safe_group-Owes X tools L group who r)
        (λ more s q. (
          call_ids-append outcomes more
              ∙ ap (λ (l : List String). outcome_ids outcomes ++ l)
                  (q.0 ∙ sym (append_nil (invocation_ids group))),
          debts_add X tools L [] [] before r.log s.log o q.1,
        ))
  run_calls-Answers (call ∷ calls) who group outcomes before r o =
      run_call-Answers (is_concurrency_safe X tools call who) call calls who
        (run_calls X tools calls who) (run_calls-Answers calls who) group outcomes before r o

  -- Let the event store take every tool/result event, and let `asyncio.gather` give one result for each
  -- call that it gets and itself raise nothing but what is no `Exception`, such as cancellation. Then
  -- execute_batch raises only what is no `Exception`. Where it returns, the outcomes carry the ids of the
  -- calls, in their order, and for each id as many tool/call as tool/result events were stored meanwhile.
  pub execute_batch-IsAnswered :
      (calls : List ToolInvocation) (who : Caller) (r : Run X)
      → Post X
          (λ xs log.
            (map (λ (x : ToolInvocationOutcome). x.call_id) xs
              ≡ map (λ (c : ToolInvocation). c.call_id) calls)
            × ((id : String)
                → call_count id log + result_count id r.log
                  ≡ call_count id r.log + result_count id log))
          (λ e log. e.is_exception ≡ false)
          (execute_batch X tools calls who r)
  unfolding execute_batch
  execute_batch-IsAnswered calls who r =
      weaken-Post X (IsAnswered X tools L (invocation_ids calls) r.log) (Cancelled X tools L) _
        (λ e log. e.is_exception ≡ false) _
        (run_calls-Answers calls who [] [] r.log r (debts_start X tools L r.log))
        (λ xs log q. (q.0, λ id. omega (arith, q.1 id))) (λ e log q. q)
