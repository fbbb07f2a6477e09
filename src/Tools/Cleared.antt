-- ===== src/Tools/Cleared.antt =====
-- What src/aegisrun/tools/pipeline.py has checked and recorded before a call may run.
use equi_seek.Prelude.{
  String, ◌≡◌, refl, sym, Bool, true, false, Option, none, some, List, [], ◌∷◌, subst, ◌⊎◌, inl,
  inr, if◌then◌else◌,
}
use equi_seek.Dict.{Dict}
use equi_seek.Tools.Spec.{ToolSpec, Raised, Result, validate_call}
use equi_seek.Tools.Actions.{
  ToolPolicyAction, ToolExecutionContext, LogEntry, Surroundings, Run, next, emit,
}
use equi_seek.Tools.Pipeline.{
  ToolInvocation, Caller, question, answered, put, approve, with_id, context_of, checked, admit,
  prepare,
}
use equi_seek.Tools.Counts.{Post, next-Post, weaken-Post, noted, emit-Post, observed-Quiet}
use equi_seek.Tools.Hooks.{IsClosed, ask_hooks-Quiet, with_id-Quiet, decided-Quiet}

-- the entry stands in the log
abbrev pub Within : LogEntry → List LogEntry → Type 0
Within e [] = ⊥
Within e (x ∷ log) = (x ≡ e) ⊎ Within e log

abbrev pub Grows : (before after : List LogEntry) → Type 0
Grows before after = (e : LogEntry) → Within e before → Within e after

module _ (X : Surroundings) (tools : Dict ToolSpec) (who : Caller) where
  open X use {World, has_events, policy_hooks, approval_hook, first_error}

  -- a policy decision that allows the call
  abbrev pub Allowed : ToolExecutionContext → List LogEntry → Type 0
  Allowed c log = (reason : String) × Within (LogEntry.decided c ToolPolicyAction.allow reason) log

  -- The policy allows a name under which the tool of the call is registered, its schema accepts the
  -- arguments, and if there is a store, it has an allowing decision and the tool/call event.
  abbrev pub IsCleared : List LogEntry → ToolExecutionContext → Type 0
  IsCleared log c =
      (name : String) × (validate_call first_error name c.arguments who.policy tools
        ≡ Result.done c.tool)
      × (has_events ≡ true → Within (LogEntry.called c name) log × Allowed c log)

  -- each handler that was run had been cleared before
  abbrev pub IsGuarded : List LogEntry → Type 0
  IsGuarded [] = Unit
  IsGuarded (LogEntry.ran c ∷ log) = IsCleared log c × IsGuarded log
  IsGuarded (LogEntry.decided c action reason ∷ log) = IsGuarded log
  IsGuarded (LogEntry.called c name ∷ log) = IsGuarded log
  IsGuarded (LogEntry.ended c x ∷ log) = IsGuarded log

  pub Grows-IsCleared :
      (before after : List LogEntry) (c : ToolExecutionContext)
      → Grows before after
      → IsCleared before c
      → IsCleared after c
  Grows-IsCleared before after c g (name, valid, stored) =
      (name, valid, λ h. (g _ (stored h).0, ((stored h).1.0, g _ (stored h).1.1)))

  -- the log has grown since, and is guarded
  abbrev pub IsSafe : (before after : List LogEntry) → Type 0
  IsSafe before after = Grows before after × IsGuarded after

  pub noted-Grows :
      (e : LogEntry) (before log : List LogEntry) → Grows before log → Grows before (noted X e log)
  noted-Grows e before log g = elim has_events as (λ b. Grows before (if b then e ∷ log else log)) [
    | true ↦ λ x w. inr (g x w)
    | false ↦ g
  ]

  noted-Within : (e : LogEntry) (log : List LogEntry) → has_events ≡ true → Within e (noted X e log)
  noted-Within e log h = rw h (inl refl)

  decided-IsSafe : (before : List LogEntry) → IsClosed X (IsSafe before)
  decided-IsSafe before c action reason log (g, safe) = (
    noted-Grows (LogEntry.decided c action reason) before log g,
    elim has_events
        as (λ b. IsGuarded (if b then LogEntry.decided c action reason ∷ log else log)) [
          | true ↦ safe
          | false ↦ safe
        ],
  )

  called-IsSafe :
      (before log : List LogEntry) (c : ToolExecutionContext) (name : String)
      → IsSafe before log
      → IsSafe before (noted X (LogEntry.called c name) log)
  called-IsSafe before log c name (g, safe) = (
    noted-Grows (LogEntry.called c name) before log g,
    elim has_events as (λ b. IsGuarded (if b then LogEntry.called c name ∷ log else log)) [
      | true ↦ safe
      | false ↦ safe
    ],
  )

  -- after the approval the log has the decision
  abbrev IsApproved : List LogEntry → ToolExecutionContext → List LogEntry → Type 0
  IsApproved before c log = IsSafe before log × (has_events ≡ true → Allowed c log)

  abbrev Approves : {A : Type 0} → List LogEntry → ToolExecutionContext → Result A × Run X → Type 0
  Approves before c p = Post X (λ u l. IsApproved before c l) (λ e l. IsSafe before l) p

  allowing-Approves :
      (before : List LogEntry) (c : ToolExecutionContext) (reason : String) (r : Run X)
      → IsSafe before r.log
      → Approves before c (emit X (LogEntry.decided c ToolPolicyAction.allow reason) r)
  allowing-Approves before c reason r h =
      let e : LogEntry = LogEntry.decided c ToolPolicyAction.allow reason in
      weaken-Post X (λ u l. l ≡ noted X e r.log) (λ x l. l ≡ r.log) (λ u l. IsApproved before c l)
        (λ x l. IsSafe before l) _ (emit-Post X e r)
        (λ u l same.
          subst (IsApproved before c) (sym same)
            (decided-IsSafe before c _ reason r.log h, λ b. (reason, noted-Within e r.log b)))
        (λ x l same. subst (IsSafe before) (sym same) h)

  refusing-Approves :
      (A : Type 0) (before : List LogEntry) (c : ToolExecutionContext) (action : ToolPolicyAction)
      (reason : String) (x : Raised) (r : Run X)
      → IsSafe before r.log
      → Approves {A = A} before c (
          next X
            (λ (u : Unit {0}) s. (Result.raised x, s))
            (emit X (LogEntry.decided c action reason) r))
  refusing-Approves A before c action reason x r h =
      next-Post X (λ u l. IsSafe before l) (λ e l. IsSafe before l) _ _ _ _
        (decided-Quiet X tools (IsSafe before) (decided-IsSafe before) c action reason r h)
        (λ u s q. q) (λ e l q. q)

  answered-Approves :
      (before : List LogEntry) (c : ToolExecutionContext) (reason : String) (b : Bool) (r : Run X)
      → IsSafe before r.log
      → Approves before c (answered X tools c reason b r)
  answered-Approves before c reason true r h = allowing-Approves before c _ r h
  answered-Approves before c reason false r h = refusing-Approves (Unit {0}) before c _ _ _ r h

  put-Approves :
      (before : List LogEntry)
      (hook : Option (ToolExecutionContext → String → World → Result Bool × World))
      (c : ToolExecutionContext) (reason : String) (r : Run X)
      → IsSafe before r.log
      → Approves before c (put X tools hook c reason r)
  put-Approves before none c reason r h = refusing-Approves (Unit {0}) before c _ _ _ r h
  put-Approves before (some hook) c reason r h =
      next-Post X (λ b l. IsSafe before l) (λ e l. IsSafe before l) _ _ _ _
        (observed-Quiet X (IsSafe before) (hook c reason r.world) r.log h)
        (answered-Approves before c reason) (λ e l q. q)

  approve-Approves :
      (before : List LogEntry) (c : ToolExecutionContext) (asked : Option String) (r : Run X)
      → IsSafe before r.log
      → Approves before c (approve X tools c asked r)
  unfolding approve
  approve-Approves before c none r h = allowing-Approves before c _ r h
  approve-Approves before c (some reason) r h = put-Approves before approval_hook c reason r h

  called-IsCleared :
      (before log : List LogEntry) (c : ToolExecutionContext) (name : String)
      → validate_call first_error name c.arguments who.policy tools ≡ Result.done c.tool
      → IsApproved before c log
      → IsCleared (noted X (LogEntry.called c name) log) c
  called-IsCleared before log c name valid (safe, allowed) = (
    name,
    valid,
    λ h. (
      noted-Within (LogEntry.called c name) log h,
      ((allowed h).0, noted-Grows (LogEntry.called c name) log log (λ e w. w) _ (allowed h).1),
    ),
  )

  -- a call that is let through is cleared
  abbrev pub Clears : List LogEntry → Result ToolExecutionContext × Run X → Type 0
  Clears before p = Post X (λ c l. IsSafe before l × IsCleared l c) (λ e l. IsSafe before l) p

  admit-Clears :
      (before : List LogEntry) (name : String) (c : ToolExecutionContext) (r : Run X)
      → validate_call first_error name c.arguments who.policy tools ≡ Result.done c.tool
      → IsSafe before r.log
      → Clears before (admit X tools name who.policy c r)
  unfolding admit
  admit-Clears before name c r valid h =
      next-Post X (λ a l. IsSafe before l) (λ e l. IsSafe before l) _ _ _ _
        (ask_hooks-Quiet X tools (IsSafe before) (decided-IsSafe before) c none policy_hooks r h)
        (λ asked s q.
          next-Post X (λ u l. IsApproved before c l) (λ e l. IsSafe before l) _ _ _ _
            (approve-Approves before c (question X tools name who.policy asked) s q)
            (λ u t q'.
              next-Post X (λ v l. IsSafe before l × IsCleared l c) (λ e l. IsSafe before l) _ _ _ _
                (weaken-Post X _ _ (λ v l. IsSafe before l × IsCleared l c) (λ e l. IsSafe before l)
                  _ (emit-Post X (LogEntry.called c name) t)
                  (λ v l same.
                    subst (λ (k : List LogEntry). IsSafe before k × IsCleared k c) (sym same)
                      (
                        called-IsSafe before t.log c name q'.0,
                        called-IsCleared before t.log c name valid q',
                      ))
                  (λ e l same. subst (IsSafe before) (sym same) q'.0))
                (λ v w z. z) (λ e l z. z))
            (λ e l z. z))
        (λ e l z. z)

  identified-Clears :
      (call : ToolInvocation) (spec : ToolSpec) (r : Run X)
      → validate_call first_error call.name call.arguments who.policy tools ≡ Result.done spec
      → IsGuarded r.log
      → Clears r.log (
          next X
            (λ call_id.
              admit X tools call.name who.policy (context_of X tools call who spec call_id))
            (with_id X tools call.call_id r))
  identified-Clears call spec r valid h =
      next-Post X (λ i l. IsSafe r.log l) (λ e l. IsSafe r.log l) _ _ _ _
        (with_id-Quiet X tools (IsSafe r.log) (decided-IsSafe r.log) call.call_id r ((λ e w. w), h))
        (λ call_id t q.
          admit-Clears r.log call.name (context_of X tools call who spec call_id) t valid q)
        (λ e l z. z)

  checked-Clears :
      (call : ToolInvocation) (r : Run X) (x : Result ToolSpec)
      → validate_call first_error call.name call.arguments who.policy tools ≡ x
      → IsGuarded r.log
      → Clears r.log (
          next X
            (λ spec s.
              next X
                (λ call_id.
                  admit X tools call.name who.policy (context_of X tools call who spec call_id))
                (with_id X tools call.call_id s))
            (checked X tools x r))
  checked-Clears call r (Result.done spec) valid h = identified-Clears call spec r valid h
  checked-Clears call r (Result.raised e) valid h = ((λ x w. w), h)

  pub prepare-Clears :
      (call : ToolInvocation) (r : Run X)
      → IsGuarded r.log
      → Clears r.log (prepare X tools call who r)
  unfolding prepare
  prepare-Clears call r h = checked-Clears call r _ refl h
