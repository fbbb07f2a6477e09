-- ===== src/Tools/Checks.antt =====
-- What the checks of src/aegisrun/tools/pipeline.py do to the counts of calls and results.
use equi_seek.Prelude.{
  ℕ, ◌+◌, String, ◌==◌, ◌≡◌, refl, sym, ap, ◌∙◌, true, false, ◌&&◌, none, List, ◌∷◌, arith, subst,
  if◌then◌else◌,
}
use equi_seek.Dict.{Dict}
use equi_seek.Tools.Spec.{ToolSpec, Result, ToolPolicy, validate_call}
use equi_seek.Tools.Actions.{ToolExecutionContext, LogEntry, Surroundings, Run}
use equi_seek.Tools.Pipeline.{ToolInvocation, Caller, question, context_of, checked, admit, prepare}
use equi_seek.Tools.Counts.{
  call_count, result_count, Silent, Post, next-Post, weaken-Post, noted, emit-Post, noted-Silent,
}
use equi_seek.Tools.Hooks.{IsClosed, ask_hooks-Quiet, approve-Quiet, with_id-Quiet}

module _ (X : Surroundings) (tools : Dict ToolSpec) where
  open X use {World, has_events, policy_hooks, approval_hook, first_error, uuid}

  -- the tool/call events with the id that one call has
  abbrev pub due : ToolExecutionContext → String → ℕ
  due c id = if has_events && c.call_id == id then 1 else 0

  abbrev pub Called :
      (before : List LogEntry) → ToolExecutionContext → (after : List LogEntry) → Type 0
  Called before c after =
      (id : String)
      → (call_count id after ≡ due c id + call_count id before)
        × (result_count id after ≡ result_count id before)

  zero_add : (n : ℕ) → n ≡ 0 + n
  zero_add n = omega arith

  noted-Called :
      (before log : List LogEntry) (c : ToolExecutionContext) (name : String)
      → Silent before log
      → Called before c (noted X (LogEntry.called c name) log)
  unfolding call_count result_count
  noted-Called before log c name h id =
      elim has_events
        as (λ b.
          (call_count id (if b then LogEntry.called c name ∷ log else log)
            ≡ (if b && c.call_id == id then 1 else 0) + call_count id before)
          × (result_count id (if b then LogEntry.called c name ∷ log else log)
              ≡ result_count id before)) [
                | true ↦ (ap (λ n. (if c.call_id == id then 1 else 0) + n) (h id).0, (h id).1)
                | false ↦ ((h id).0 ∙ zero_add _, (h id).1)
              ]

  -- a call that is let through has one event more, one that is not has none
  abbrev pub Prepares : (before : List LogEntry) → Result ToolExecutionContext × Run X → Type 0
  Prepares before p = Post X (λ c l. Called before c l) (λ x l. Silent before l) p

  closed : (before : List LogEntry) → IsClosed X (Silent before)
  closed before c action reason log h = noted-Silent X c action reason before log h

  admit-Prepares :
      (before : List LogEntry) (name : String) (policy : ToolPolicy) (c : ToolExecutionContext)
      (r : Run X)
      → Silent before r.log
      → Prepares before (admit X tools name policy c r)
  unfolding admit
  admit-Prepares before name policy c r h =
      next-Post X (λ a l. Silent before l) (λ x l. Silent before l) _ _ _ _
        (ask_hooks-Quiet X tools (Silent before) (closed before) c none policy_hooks r h)
        (λ asked s q.
          next-Post X (λ a l. Silent before l) (λ x l. Silent before l) _ _ _ _
            (approve-Quiet X tools (Silent before) (closed before) c
              (question X tools name policy asked) s q)
            (λ u t q'.
              next-Post X (λ a l. Called before c l) (λ x l. Silent before l) _ _ _ _
                (weaken-Post X _ _ (λ a l. Called before c l) (λ x l. Silent before l) _
                  (emit-Post X (LogEntry.called c name) t)
                  (λ v l e. subst (Called before c) (sym e) (noted-Called before t.log c name q'))
                  (λ x l e. subst (Silent before) (sym e) q'))
                (λ v w q''. q'') (λ e l q''. q''))
            (λ e l q'. q'))
        (λ e l q. q)

  checked-Silent :
      (x : Result ToolSpec) (r : Run X)
      → Post X (λ a l. Silent r.log l) (λ e l. Silent r.log l) (checked X tools x r)
  checked-Silent (Result.done spec) r = λ id. (refl, refl)
  checked-Silent (Result.raised e) r = λ id. (refl, refl)

  pub prepare-Prepares :
      (call : ToolInvocation) (who : Caller) (r : Run X)
      → Prepares r.log (prepare X tools call who r)
  unfolding prepare
  prepare-Prepares call who r =
      next-Post X (λ a l. Silent r.log l) (λ x l. Silent r.log l) _ _ _ _
        (checked-Silent (validate_call first_error call.name call.arguments who.policy tools) r)
        (λ spec s q.
          next-Post X (λ a l. Silent r.log l) (λ x l. Silent r.log l) _ _ _ _
            (with_id-Quiet X tools (Silent r.log) (closed r.log) call.call_id s q)
            (λ call_id t q'.
              admit-Prepares r.log call.name who.policy (context_of X tools call who spec call_id) t
                q')
            (λ e l q'. q'))
        (λ e l q. q)
