-- ===== src/Tools/Counts.antt =====
-- Counting the calls and the results in the log of src/aegisrun/tools/pipeline.py, and what the steps
-- before a result do to the counts.
use equi_seek.Prelude.{
  ℕ, ◌+◌, String, ◌==◌, ◌≡◌, refl, sym, true, false, Option, none, some, List, [], ◌∷◌, subst,
  if◌then◌else◌,
}
use equi_seek.Tools.Spec.{Raised, Result}
use equi_seek.Tools.Actions.{
  ToolPolicyAction, ToolExecutionContext, LogEntry, Surroundings, Run, Action, next, observed, emit,
  kept,
}

-- the tool/call events with the id
unfoldable pub call_count : String → List LogEntry → ℕ
call_count id [] = 0
call_count id (LogEntry.called c name ∷ log) =
    (if c.call_id == id then 1 else 0) + call_count id log
call_count id (LogEntry.decided c action reason ∷ log) = call_count id log
call_count id (LogEntry.ended c x ∷ log) = call_count id log
call_count id (LogEntry.ran c ∷ log) = call_count id log

-- the tool/result events with the id
unfoldable pub result_count : String → List LogEntry → ℕ
result_count id [] = 0
result_count id (LogEntry.ended c x ∷ log) =
    (if c.call_id == id then 1 else 0) + result_count id log
result_count id (LogEntry.decided c action reason ∷ log) = result_count id log
result_count id (LogEntry.called c name ∷ log) = result_count id log
result_count id (LogEntry.ran c ∷ log) = result_count id log

abbrev pub Silent : (before after : List LogEntry) → Type 0
Silent before after =
    (id : String)
    → (call_count id after ≡ call_count id before)
      × (result_count id after ≡ result_count id before)

module _ (X : Surroundings) where
  open X use {World, has_events, append}

  -- what holds of the value and the log where the action returns, and where it raises
  abbrev pub Post :
      {A : Type 0}
      → (A → List LogEntry → Type 0)
      → (Raised → List LogEntry → Type 0)
      → Result A × Run X
      → Type 0
  Post Q R (Result.done a, r) = Q a r.log
  Post Q R (Result.raised e, r) = R e r.log

  pub next-Post :
      {A B : Type 0} (Q : A → List LogEntry → Type 0) (R : Raised → List LogEntry → Type 0)
      (Q' : B → List LogEntry → Type 0) (R' : Raised → List LogEntry → Type 0)
      (p : Result A × Run X) (f : A → Action X B)
      → Post Q R p
      → ((a : A) (r : Run X) → Q a r.log → Post Q' R' (f a r))
      → ((e : Raised) (log : List LogEntry) → R e log → R' e log)
      → Post Q' R' (next X f p)
  next-Post Q R Q' R' (Result.done a, r) f h k j = k a r h
  next-Post Q R Q' R' (Result.raised e, r) f h k j = j e r.log h

  pub weaken-Post :
      {A : Type 0} (Q : A → List LogEntry → Type 0) (R : Raised → List LogEntry → Type 0)
      (Q' : A → List LogEntry → Type 0) (R' : Raised → List LogEntry → Type 0)
      (p : Result A × Run X)
      → Post Q R p
      → ((a : A) (l : List LogEntry) → Q a l → Q' a l)
      → ((e : Raised) (l : List LogEntry) → R e l → R' e l)
      → Post Q' R' p
  weaken-Post Q R Q' R' (Result.done a, r) h k j = k a r.log h
  weaken-Post Q R Q' R' (Result.raised e, r) h k j = j e r.log h

  -- an event is in the log only if there is a store
  abbrev pub noted : LogEntry → List LogEntry → List LogEntry
  noted e log = if has_events then e ∷ log else log

  kept-Post :
      (e : LogEntry) (p : Option Raised × World) (log : List LogEntry)
      → Post (λ (u : Unit {0}) l. l ≡ e ∷ log) (λ x l. l ≡ log) (kept X e p log)
  kept-Post e (none, w) log = refl
  kept-Post e (some x, w) log = refl

  pub emit-Post :
      (e : LogEntry) (r : Run X)
      → Post (λ (u : Unit {0}) l. l ≡ noted e r.log) (λ x l. l ≡ r.log) (emit X e r)
  unfolding emit
  emit-Post e r =
      elim has_events
        as (λ b.
          Post (λ (u : Unit {0}) l. l ≡ (if b then e ∷ r.log else r.log)) (λ x l. l ≡ r.log)
            (if b then kept X e (append e r.world) r.log else (Result.done tt, r))) [
              | true ↦ kept-Post e (append e r.world) r.log
              | false ↦ refl
            ]

  pub observed-Post :
      {A : Type 0} (p : Result A × World) (log : List LogEntry)
      → Post (λ (a : A) l. l ≡ log) (λ x l. l ≡ log) (observed X p log)
  observed-Post (Result.done a, w) log = refl
  observed-Post (Result.raised e, w) log = refl

  pub noted-Silent :
      (c : ToolExecutionContext) (action : ToolPolicyAction) (reason : String)
      (before log : List LogEntry)
      → Silent before log
      → Silent before (noted (LogEntry.decided c action reason) log)
  unfolding call_count result_count
  noted-Silent c action reason before log h id =
      elim has_events
        as (λ b.
          (call_count id (if b then LogEntry.decided c action reason ∷ log else log)
            ≡ call_count id before)
          × (result_count id (if b then LogEntry.decided c action reason ∷ log else log)
              ≡ result_count id before)) [ true ↦ h id | false ↦ h id ]

  -- what the checks keep true of the log, whether they return or raise
  abbrev pub Quiet : {A : Type 0} → (List LogEntry → Type 0) → Result A × Run X → Type 0
  Quiet P p = Post (λ a l. P l) (λ x l. P l) p

  pub next-Quiet :
      {A B : Type 0} (P : List LogEntry → Type 0) (p : Result A × Run X) (f : A → Action X B)
      → Quiet P p
      → ((a : A) (r : Run X) → P r.log → Quiet P (f a r))
      → Quiet P (next X f p)
  next-Quiet P p f h k =
      next-Post (λ a l. P l) (λ x l. P l) (λ b l. P l) (λ x l. P l) p f h k (λ e l q. q)

  pub observed-Quiet :
      {A : Type 0} (P : List LogEntry → Type 0) (p : Result A × World) (log : List LogEntry)
      → P log
      → Quiet P (observed X p log)
  observed-Quiet P (Result.done a, w) log h = h
  observed-Quiet P (Result.raised e, w) log h = h

  pub emit-Quiet :
      (P : List LogEntry → Type 0) (e : LogEntry) (r : Run X)
      → P (noted e r.log)
      → P r.log
      → Quiet P (emit X e r)
  emit-Quiet P e r h k =
      weaken-Post (λ u l. l ≡ noted e r.log) (λ x l. l ≡ r.log) (λ u l. P l) (λ x l. P l) _
        (emit-Post e r) (λ u l same. subst P (sym same) h) (λ x l same. subst P (sym same) k)
