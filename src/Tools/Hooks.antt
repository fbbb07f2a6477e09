-- ===== src/Tools/Hooks.antt =====
-- Predicates of the log under the policy hooks and the approval of src/aegisrun/tools/pipeline.py.
use equi_seek.Prelude.{
  String, ◌==◌, Bool, true, false, Option, none, some, List, [], ◌∷◌, if◌then◌else◌,
}
use equi_seek.Dict.{Dict}
use equi_seek.Tools.Spec.{ToolSpec, Result}
use equi_seek.Tools.Actions.{
  ToolPolicyAction, ToolPolicyDecision, ToolExecutionContext, LogEntry, Surroundings, Run, emit,
}
use equi_seek.Tools.Pipeline.{heed, ask_hooks, answered, put, approve, with_id}
use equi_seek.Tools.Counts.{noted, Quiet, emit-Quiet, next-Quiet, observed-Quiet}

-- a policy decision at the head of the log changes nothing of it
abbrev pub IsClosed : Surroundings → (List LogEntry → Type 0) → Type 0
IsClosed X P =
    (c : ToolExecutionContext) (action : ToolPolicyAction) (reason : String) (log : List LogEntry)
    → P log
    → P (noted X (LogEntry.decided c action reason) log)

module _ (X : Surroundings) (tools : Dict ToolSpec) (P : List LogEntry → Type 0)
    (closed : IsClosed X P) where
  open X use {World, approval_hook, uuid}

  pub decided-Quiet :
      (c : ToolExecutionContext) (action : ToolPolicyAction) (reason : String) (r : Run X)
      → P r.log
      → Quiet X P (emit X (LogEntry.decided c action reason) r)
  decided-Quiet c action reason r h = emit-Quiet X P _ r (closed c action reason r.log h) h

  heed-Quiet :
      (c : ToolExecutionContext) (asked : Option String) (action : ToolPolicyAction)
      (reason : String) (r : Run X)
      → P r.log
      → Quiet X P (heed X tools c asked action reason r)
  heed-Quiet c asked ToolPolicyAction.allow reason r h = h
  heed-Quiet c asked ToolPolicyAction.ask reason r h = h
  heed-Quiet c asked ToolPolicyAction.deny reason r h =
      next-Quiet X P _ _ (decided-Quiet c _ reason r h) (λ u s q. q)

  pub ask_hooks-Quiet :
      (c : ToolExecutionContext) (asked : Option String)
      (hooks : List (ToolExecutionContext → World → Result ToolPolicyDecision × World)) (r : Run X)
      → P r.log
      → Quiet X P (ask_hooks X tools c asked hooks r)
  unfolding ask_hooks
  ask_hooks-Quiet c asked [] r h = h
  ask_hooks-Quiet c asked (hook ∷ hooks) r h =
      next-Quiet X P _ _ (observed-Quiet X P (hook c r.world) r.log h) (λ d s q.
        next-Quiet X P _ _ (heed-Quiet c asked d.action d.reason s q)
          (λ now t q'. ask_hooks-Quiet c now hooks t q'))

  answered-Quiet :
      (c : ToolExecutionContext) (reason : String) (b : Bool) (r : Run X)
      → P r.log
      → Quiet X P (answered X tools c reason b r)
  answered-Quiet c reason true r h = decided-Quiet c _ _ r h
  answered-Quiet c reason false r h = next-Quiet X P _ _ (decided-Quiet c _ _ r h) (λ u s q. q)

  put-Quiet :
      (hook : Option (ToolExecutionContext → String → World → Result Bool × World))
      (c : ToolExecutionContext) (reason : String) (r : Run X)
      → P r.log
      → Quiet X P (put X tools hook c reason r)
  put-Quiet none c reason r h = next-Quiet X P _ _ (decided-Quiet c _ _ r h) (λ u s q. q)
  put-Quiet (some hook) c reason r h =
      next-Quiet X P _ _ (observed-Quiet X P (hook c reason r.world) r.log h)
        (answered-Quiet c reason)

  pub approve-Quiet :
      (c : ToolExecutionContext) (asked : Option String) (r : Run X)
      → P r.log
      → Quiet X P (approve X tools c asked r)
  unfolding approve
  approve-Quiet c none r h = decided-Quiet c _ _ r h
  approve-Quiet c (some reason) r h = put-Quiet approval_hook c reason r h

  pub with_id-Quiet :
      (call_id : String) (r : Run X) → P r.log → Quiet X P (with_id X tools call_id r)
  with_id-Quiet call_id r h =
      elim (call_id == "")
        as (λ b. Quiet X P (
          if b
          then (Result.done (uuid r.world).0, record r { world = (uuid r.world).1 })
          else (Result.done call_id, r))) [ true ↦ h | false ↦ h ]
