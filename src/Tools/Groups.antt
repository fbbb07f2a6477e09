-- ===== src/Tools/Groups.antt =====
-- The groups of safe calls and the batches of src/aegisrun/tools/pipeline.py.
use equi_seek.Prelude.{
  ◌+◌, String, ◌≡◌, refl, sym, ap, ◌∙◌, false, List, [], ◌∷◌, ◌++◌, arith, subst, length, map,
}
use equi_seek.Dict.{Dict}
use equi_seek.Tools.Spec.{ToolSpec, ToolResult, Raised, Result}
use equi_seek.Tools.Actions.{
  ToolExecutionContext, LogEntry, Surroundings, Run, Action, next, observed,
}
use equi_seek.Tools.Pipeline.{ToolInvocation, Caller}
use equi_seek.Tools.Batch.{
  ToolInvocationOutcome, Prepared, contexts, prepare_all, note_runs, outcome_of, collect,
}
use equi_seek.Tools.Counts.{Post, next-Post}
use equi_seek.Tools.Batch.{execute_safe_group, flush_safe_group}
use equi_seek.Tools.Paired.{dues, Owes, IsReliable, record_result-Owes}
use equi_seek.Tools.Singles.{invocation, prepare_one-Owes, ran_Owes}

module _ (X : Surroundings) (tools : Dict ToolSpec) (L : IsReliable X tools) where
  open X use {World, has_events, append, gather, handler}
  open L use {gathers_all}

  dues-append :
      (id : String) (cs ds : List ToolExecutionContext)
      → dues X tools (cs ++ ds) id ≡ dues X tools cs id + dues X tools ds id
  dues-append id [] ds = omega arith
  dues-append id (c ∷ cs) ds = omega (arith, dues-append id cs ds)

  pub debts_add :
      (cs ds : List ToolExecutionContext) (a b c : List LogEntry)
      → Owes X tools cs a b
      → Owes X tools ds b c
      → Owes X tools (cs ++ ds) a c
  debts_add cs ds a b c h k id = omega (arith, h id, k id, dues-append id cs ds)

  contexts-cons :
      (p : Prepared) (ps : List Prepared) → contexts (p ∷ ps) ≡ contexts (p ∷ []) ++ contexts ps
  unfolding contexts
  contexts-cons (Prepared.ready call c) ps = refl
  contexts-cons (Prepared.refused call e) ps = refl

  abbrev pub Cancelled : Raised → List LogEntry → Type 0
  Cancelled e l = e.is_exception ≡ false

  pub debts_start : (log : List LogEntry) → Owes X tools [] log log
  debts_start log id = omega arith

  pub next-Cancelled :
      {A B : Type 0} (Q : A → List LogEntry → Type 0) (Q' : B → List LogEntry → Type 0)
      (p : Result A × Run X) (f : A → Action X B)
      → Post X Q Cancelled p
      → ((a : A) (r : Run X) → Q a r.log → Post X Q' Cancelled (f a r))
      → Post X Q' Cancelled (next X f p)
  next-Cancelled Q Q' p f h k = next-Post X Q Cancelled Q' Cancelled p f h k (λ e l x. x)

  abbrev IsPrepared : List ToolInvocation → List LogEntry → List Prepared → List LogEntry → Type 0
  IsPrepared calls before ps l =
      (map (invocation X tools L) ps ≡ calls) × Owes X tools (contexts ps) before l

  abbrev IsPreparedOne : ToolInvocation → List LogEntry → Prepared → List LogEntry → Type 0
  IsPreparedOne call before p l =
      (invocation X tools L p ≡ call) × Owes X tools (contexts (p ∷ [])) before l

  prepare_all-Owes :
      (calls : List ToolInvocation) (who : Caller) (r : Run X)
      → Post X (IsPrepared calls r.log) Cancelled (prepare_all X tools calls who r)
  unfolding prepare_all contexts
  prepare_all-Owes [] who r = (refl, debts_start r.log)
  prepare_all-Owes (call ∷ calls) who r =
      next-Cancelled (IsPreparedOne call r.log) (IsPrepared (call ∷ calls) r.log) _ _
        (prepare_one-Owes X tools L call who r)
        (λ p s q.
          next-Cancelled (IsPrepared calls s.log) (IsPrepared (call ∷ calls) r.log) _ _
            (prepare_all-Owes calls who s)
            (λ ps t q'. (
              ap (λ (x : ToolInvocation). x ∷ map (invocation X tools L) ps) q.0
                  ∙ ap (λ (xs : List ToolInvocation). call ∷ xs) q'.0,
              subst (λ (cs : List ToolExecutionContext). Owes X tools cs r.log t.log)
                  (sym (contexts-cons p ps))
                  (debts_add (contexts (p ∷ [])) (contexts ps) r.log s.log t.log q.1 q'.1),
            )))

  note_runs-Owes :
      (cs ds : List ToolExecutionContext) (before : List LogEntry) (r : Run X)
      → Owes X tools cs before r.log
      → Post X (λ u l. Owes X tools cs before l) Cancelled (note_runs X tools ds r)
  unfolding note_runs
  note_runs-Owes cs [] before r h = h
  note_runs-Owes cs (d ∷ ds) before r h =
      note_runs-Owes cs ds before (record r { log = LogEntry.ran d ∷ r.log })
        (ran_Owes X tools L before r.log d cs h)

  abbrev pub call_ids : List ToolInvocationOutcome → List String
  call_ids xs = map (λ (x : ToolInvocationOutcome). x.call_id) xs

  abbrev pub asked_ids : List ToolInvocation → List String
  asked_ids calls = map (λ (c : ToolInvocation). c.call_id) calls

  outcome_of_lem :
      (call_id : String) (c : ToolExecutionContext) (x : Result ToolResult)
      → (outcome_of X tools call_id c x).call_id ≡ call_id
  outcome_of_lem call_id c (Result.done x) = refl
  outcome_of_lem call_id c (Result.raised e) = refl

  -- the outcomes are those of the calls with the ids, and nothing is owed
  abbrev pub IsAnswered :
      List String → List LogEntry → List ToolInvocationOutcome → List LogEntry → Type 0
  IsAnswered ids before xs l = (call_ids xs ≡ ids) × Owes X tools [] before l

  collect-Owes :
      (ps : List Prepared) (results : List (Result ToolResult)) (before : List LogEntry) (r : Run X)
      → length results ≡ length (contexts ps)
      → Owes X tools (contexts ps) before r.log
      → Post X
          (IsAnswered (asked_ids (map (invocation X tools L) ps)) before)
          Cancelled
          (collect X tools ps results r)
  unfolding collect contexts
  collect-Owes [] results before r n h = (refl, h)
  collect-Owes (Prepared.refused call e ∷ ps) results before r n h =
      next-Cancelled (IsAnswered (asked_ids (map (invocation X tools L) ps)) before)
        (IsAnswered (call.call_id ∷ asked_ids (map (invocation X tools L) ps)) before) _ _
        (collect-Owes ps results before r n h)
        (λ xs s q. (ap (λ (l : List String). call.call_id ∷ l) q.0, q.1))
  collect-Owes (Prepared.ready call c ∷ ps) [] before r n h = absurd (omega (arith, n))
  collect-Owes (Prepared.ready call c ∷ ps) (x ∷ xs) before r n h =
      next-Post X (λ u l. Owes X tools (contexts ps) before l) (λ e l. ⊥)
        (IsAnswered (call.call_id ∷ asked_ids (map (invocation X tools L) ps)) before) Cancelled _ _
        (record_result-Owes X tools L c (contexts ps) x before r h)
        (λ u s q.
          next-Cancelled (IsAnswered (asked_ids (map (invocation X tools L) ps)) before)
            (IsAnswered (call.call_id ∷ asked_ids (map (invocation X tools L) ps)) before) _ _
            (collect-Owes ps xs before s (omega (arith, n)) q)
            (λ rest t q'. (
              ap (λ (i : String). i ∷ call_ids rest) (outcome_of_lem call.call_id c x)
                  ∙ ap (λ (l : List String). call.call_id ∷ l) q'.0,
              q'.1,
            )))
        (λ e l x. absurd x)

  gathered :
      (cs : List ToolExecutionContext) (p : Result (List (Result ToolResult)) × World)
      (log : List LogEntry)
      → Post X (λ xs l. length xs ≡ length cs) Cancelled (observed X p [])
      → Post X (λ xs l. (length xs ≡ length cs) × (l ≡ log)) Cancelled (observed X p log)
  gathered cs (Result.done xs, w) log h = (h, refl)
  gathered cs (Result.raised e, w) log h = h

  execute_safe_group-Owes :
      (calls : List ToolInvocation) (who : Caller) (r : Run X)
      → Post X
          (IsAnswered (asked_ids calls) r.log)
          Cancelled
          (execute_safe_group X tools calls who r)
  unfolding execute_safe_group
  execute_safe_group-Owes calls who r =
      next-Cancelled (IsPrepared calls r.log) (IsAnswered (asked_ids calls) r.log) _ _
        (prepare_all-Owes calls who r)
        (λ ps s q.
          next-Cancelled (λ u l. Owes X tools (contexts ps) r.log l)
            (IsAnswered (asked_ids calls) r.log) _ _
            (note_runs-Owes (contexts ps) (contexts ps) r.log s q.1)
            (λ u t q'.
              next-Cancelled (λ xs l. (length xs ≡ length (contexts ps)) × (l ≡ t.log))
                (IsAnswered (asked_ids calls) r.log) _ _
                (gathered (contexts ps) (gather (contexts ps) t.world) t.log
                  (gathers_all (contexts ps) t.world))
                (λ xs v q''.
                  subst
                    (λ (cs : List ToolInvocation).
                      Post X (IsAnswered (asked_ids cs) r.log) Cancelled (collect X tools ps xs v))
                    q.0
                    (collect-Owes ps xs r.log v q''.0
                      (subst (Owes X tools (contexts ps) r.log) (sym q''.1) q')))))

  pub flush_safe_group-Owes :
      (group : List ToolInvocation) (who : Caller) (r : Run X)
      → Post X (IsAnswered (asked_ids group) r.log) Cancelled (flush_safe_group X tools group who r)
  unfolding flush_safe_group
  flush_safe_group-Owes [] who r = (refl, debts_start r.log)
  flush_safe_group-Owes (call ∷ calls) who r = execute_safe_group-Owes (call ∷ calls) who r
