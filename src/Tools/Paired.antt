-- ===== src/Tools/Paired.antt =====
-- The pairing of calls and results in the log of src/aegisrun/tools/pipeline.py.
use equi_seek.Prelude.{
  ℕ, ◌+◌, String, ◌==◌, ◌≡◌, refl, sym, true, false, ◌&&◌, Option, none, some, List, [], ◌∷◌, arith,
  subst, if◌then◌else◌, length,
}
use equi_seek.Dict.{Dict}
use equi_seek.Tools.Spec.{ToolSpec, ToolResult, Raised, Result}
use equi_seek.Tools.Actions.{
  ToolExecutionContext, LogEntry, Surroundings, Run, observed, emit, kept,
}
use equi_seek.Tools.Pipeline.{record_result}
use equi_seek.Tools.Counts.{call_count, result_count, Post, weaken-Post, noted}
use equi_seek.Tools.Checks.{due}

-- the contexts have as many calls with the id
module _ (X : Surroundings) (tools : Dict ToolSpec) where
  open X use {World, has_events, append, gather, handler}

  abbrev pub dues : List ToolExecutionContext → String → ℕ
  dues [] id = 0
  dues (c ∷ cs) id = due X tools c id + dues cs id

  -- since `before`, as many calls as results, but for those of the contexts
  abbrev pub Owes : List ToolExecutionContext → (before after : List LogEntry) → Type 0
  Owes cs before after =
      (id : String)
      → call_count id after + result_count id before
        ≡ dues cs id + call_count id before + result_count id after

  -- What is relied on: the store takes every result, and `asyncio.gather` gives a result for each call
  -- and itself raises nothing but cancellation.
  pub record IsReliable : Type 0 where
    pub stores_results :
        (c : ToolExecutionContext) (x : Result ToolResult) (w : World)
        → (append (LogEntry.ended c x) w).0 ≡ none
    pub gathers_all :
        (cs : List ToolExecutionContext) (w : World)
        → Post X
            (λ xs l. length xs ≡ length cs)
            (λ e l. e.is_exception ≡ false)
            (observed X (gather cs w) [])

module _ (X : Surroundings) (tools : Dict ToolSpec) (L : IsReliable X tools) where
  open X use {World, has_events, append, gather, handler}
  open L use {stores_results, gathers_all}

  noted-Owes :
      (c : ToolExecutionContext) (cs : List ToolExecutionContext) (x : Result ToolResult)
      (before log : List LogEntry)
      → Owes X tools (c ∷ cs) before log
      → Owes X tools cs before (noted X (LogEntry.ended c x) log)
  unfolding call_count result_count
  noted-Owes c cs x before log h id =
      elim has_events
          as (λ b.
            call_count id log + result_count id before
              ≡ (if b && c.call_id == id then 1 else 0)
                + dues X tools cs id
                + call_count id before
                + result_count id log
            → call_count id (if b then LogEntry.ended c x ∷ log else log) + result_count id before
              ≡ dues X tools cs id
                + call_count id before
                + result_count id (if b then LogEntry.ended c x ∷ log else log)) [
                  | true ↦ λ e. omega (arith, e)
                  | false ↦ λ e. omega (arith, e)
                ]
        (h id)

  kept-Stored :
      (e : LogEntry) (p : Option Raised × World) (log : List LogEntry)
      → p.0 ≡ none
      → Post X (λ (u : Unit {0}) l. l ≡ e ∷ log) (λ x l. ⊥) (kept X e p log)
  kept-Stored e (none, w) log h = refl
  kept-Stored e (some x, w) log h = cc

  -- a result is stored, where there is a store
  stored-Post :
      (c : ToolExecutionContext) (x : Result ToolResult) (r : Run X)
      → Post X
          (λ u l. l ≡ noted X (LogEntry.ended c x) r.log)
          (λ e l. ⊥)
          (record_result X tools c x r)
  unfolding emit
  stored-Post c x r =
      elim has_events
        as (λ b.
          Post X (λ (u : Unit {0}) l. l ≡ (if b then LogEntry.ended c x ∷ r.log else r.log))
            (λ e l. ⊥)
            (if b
              then kept X (LogEntry.ended c x) (append (LogEntry.ended c x) r.world) r.log
              else (Result.done tt, r))) [
                | true ↦
                    kept-Stored (LogEntry.ended c x) (append (LogEntry.ended c x) r.world) r.log
                      (stores_results c x r.world)
                | false ↦ refl
              ]

  pub record_result-Owes :
      (c : ToolExecutionContext) (cs : List ToolExecutionContext) (x : Result ToolResult)
      (before : List LogEntry) (r : Run X)
      → Owes X tools (c ∷ cs) before r.log
      → Post X (λ u l. Owes X tools cs before l) (λ e l. ⊥) (record_result X tools c x r)
  record_result-Owes c cs x before r h =
      weaken-Post X _ _ (λ u l. Owes X tools cs before l) (λ e l. ⊥) _ (stored-Post c x r)
        (λ u l e. subst (Owes X tools cs before) (sym e) (noted-Owes c cs x before r.log h))
        (λ e l q. q)
