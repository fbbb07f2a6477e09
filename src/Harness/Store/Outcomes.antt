-- ===== src/Harness/Store/Outcomes.antt =====
-- How `append` of `WorkspaceEventStore` in src/aegisrun/harness/events.py ends.
use equi_seek.Prelude.{
  ◌+◌, String, ◌≡◌, ◌≢◌, refl, sym, ap, ◌∙◌, Bool, true, false, some, arith, subst, List, [], ◌∷◌,
  ◌++◌, inl, inr, ◌⊎◌, length,
}
use equi_seek.Harness.Checked.{Checked, ok, violated, ◌>>=◌, Checked-cases}
use equi_seek.Harness.Events.{AgentEvent}
use equi_seek.Harness.Store.Json.{Interpreter, JsonLaws}
use equi_seek.Harness.Store.Make.{make_source, make_event}
use equi_seek.Harness.Store.Log.{File, append_sync, is_dangling}
use equi_seek.Harness.Store.Append.{
  EventStore, Request, Cancellation, validated, fresh_events, load, append, append_to, remembering,
  draft, checked_event, cancelled_write, cancel_checked, cancel_loaded,
}
use equi_seek.Harness.Store.Synced.{IsSynced}
use equi_seek.Harness.Store.Appended.{
  append_to-fresh_events, load_lem, pair_of, remembering-fresh_events, append_now-fresh_events,
  append_now_refused,
}

module _ (I : Interpreter) (L : JsonLaws I) where
  append_to-checked_event :
      (s : EventStore I) (q : Request) (es : List AgentEvent) (e : AgentEvent) (f : File I)
      → checked_event I s q es ≡ ok e
      → append_sync I e s.file ≡ ok f
      → append_to I s q es ≡ ok (e, f)
  unfolding append_to ◌>>=◌
  append_to-checked_event s q es e f h w =
      elim (Checked-cases (make_event I (draft I s q (length es + 1)))) [
        | inr (owner, message, failed) ↦ absurd (ground arith)
        | inl (made, is_made) ↦ elim (Checked-cases (validated s.invariants (es ++ (made ∷ [])))) [
          | inr (owner, message, failed) ↦ absurd (ground arith)
          | inl (u, valid) ↦
              let same : made ≡ e = ground arith in
              rw
                (
                  is_made,
                  valid,
                  subst (λ (x : AgentEvent). append_sync I x s.file ≡ ok f) (sym same) w,
                )
                (ap (λ (x : AgentEvent). ok (x, f)) same)
        ]
      ]

  file_apart :
      (s : EventStore I) (f : File I) (es more : List AgentEvent)
      → fresh_events I (record s { file = f; events = some es })
        ≡ fresh_events I (record s { file = f; events = some more })
  unfolding fresh_events
  file_apart s f es more = refl

  -- the store after a call that raised
  abbrev pub IsLeft : Cancellation → EventStore I → EventStore I → Type 0
  IsLeft c s s' =
      (s' ≡ s)
      ⊎ ((es : List AgentEvent) × (fresh_events I s ≡ ok es) × (s' ≡ record s { events = some es }))
      ⊎ ((es : List AgentEvent) × (e : AgentEvent) × (file : File I) × (c
            ≡ Cancellation.during_write true)
          × (fresh_events I s ≡ ok es)
          × (s' ≡ record s { file = file; events = some es })
          × (is_dangling I file ≡ false)
          × (e.seq ≡ length es + 1)
          × (fresh_events I s' ≡ ok (es ++ (e ∷ []))))

  module _ (q : Request) (s : EventStore I) (es : List AgentEvent)
      (made : make_source q.source ≡ ok q.source) (solid : is_dangling I s.file ≡ false)
      (fresh : fresh_events I s ≡ ok es) where
    write-IsLeft :
        (lands : Bool) (e : AgentEvent) (y : Checked (File I))
        → checked_event I (remembering I es s) q es ≡ ok e
        → append_sync I e s.file ≡ y
        → IsLeft
            (Cancellation.during_write lands)
            s
            (cancelled_write I lands es y (remembering I es s)).1
    write-IsLeft true e (violated owner message) checked h = inr (inl (es, fresh, refl))
    write-IsLeft false e (violated owner message) checked h = inr (inl (es, fresh, refl))
    write-IsLeft false e (ok f) checked h = inr (inl (es, fresh, refl))
    write-IsLeft true e (ok f) checked h =
        let r : EventStore I = remembering I es s in
        let kept =
          append_to-fresh_events I L r q es e f made solid
            (remembering-fresh_events I L s es ∙ fresh)
            (append_to-checked_event r q es e f checked h) in
        inr (
          inr (
            es,
            e,
            f,
            refl,
            fresh,
            refl,
            kept.1,
            kept.0,
            file_apart s f es (es ++ (e ∷ [])) ∙ kept.2,
          ))

    checked-IsLeft :
        (lands : Bool) (x : Checked AgentEvent)
        → checked_event I (remembering I es s) q es ≡ x
        → IsLeft
            (Cancellation.during_write lands)
            s
            (cancel_checked I lands es x (remembering I es s)).1
    checked-IsLeft lands (violated owner message) h = inr (inl (es, fresh, refl))
    checked-IsLeft lands (ok e) h = write-IsLeft lands e (append_sync I e s.file) h refl

  cancel_loaded-IsLeft :
      (lands : Bool) (q : Request) (s : EventStore I)
      → make_source q.source ≡ ok q.source
      → IsSynced I L s
      → IsLeft (Cancellation.during_write lands) s (cancel_loaded I lands q (load I s)).1
  cancel_loaded-IsLeft lands q s made synced = elim (load_lem I L s synced) [
    | inr (owner, message, none_held, failed) ↦ inl (ap (λ p. (cancel_loaded I lands q p).1) failed)
    | inl (es, fresh, found) ↦
        subst (λ (s' : EventStore I). IsLeft (Cancellation.during_write lands) s s')
          (sym (ap (λ p. (cancel_loaded I lands q p).1) found))
          (checked-IsLeft q s es made synced.0 fresh lands _ refl)
  ]

  never_returns :
      (lands : Bool) (e : AgentEvent) (es : List AgentEvent) (y : Checked (File I))
      (s : EventStore I)
      → (cancelled_write I lands es y s).0 ≡ ok e
      → ⊥
  never_returns true e es (ok f) s h = cc
  never_returns false e es (ok f) s h = cc
  never_returns true e es (violated o m) s h = cc
  never_returns false e es (violated o m) s h = cc

  cancel_checked_lem :
      (lands : Bool) (e : AgentEvent) (es : List AgentEvent) (x : Checked AgentEvent)
      (s : EventStore I)
      → (cancel_checked I lands es x s).0 ≡ ok e
      → ⊥
  cancel_checked_lem lands e es (ok d) s h = never_returns lands e es (append_sync I d s.file) s h
  cancel_checked_lem lands e es (violated o m) s h = cc

  cancel_loaded_lem :
      (lands : Bool) (q : Request) (e : AgentEvent) (p : Checked (List AgentEvent) × EventStore I)
      → (cancel_loaded I lands q p).0 ≡ ok e
      → ⊥
  cancel_loaded_lem lands q e (ok es, s) h =
      cancel_checked_lem lands e es (checked_event I s q es) s h
  cancel_loaded_lem lands q e (violated o m, s) h = cc

  -- Let the source be one that its constructor has made, let the path be no link without its target, and
  -- let the events in memory, if there are any, be those that a new store would load from the file. Where
  -- `append` returns an event, a new store would have loaded some events before, the event has the next
  -- number after them, and the file and the memory now hold those events with the new one at the end: a
  -- new store loads exactly them.
  pub append-fresh_events :
      (c : Cancellation) (q : Request) (s s' : EventStore I) (e : AgentEvent)
      → make_source q.source ≡ ok q.source
      → IsSynced I L s
      → append I c q s ≡ (ok e, s')
      → (es : List AgentEvent) × (fresh_events I s ≡ ok es)
        × (e.seq ≡ length es + 1)
        × (is_dangling I s'.file ≡ false)
        × (fresh_events I s' ≡ ok (es ++ (e ∷ [])))
        × (s'.events ≡ some (es ++ (e ∷ [])))
  unfolding append
  append-fresh_events Cancellation.never q s s' e made synced h =
      append_now-fresh_events I L q s s' e made synced h
  append-fresh_events Cancellation.before_write q s s' e made synced h = absurd (cc)
  append-fresh_events (Cancellation.during_write lands) q s s' e made synced h = absurd (
      cancel_loaded_lem lands q e (load I s)
        (ap (λ (p : Checked AgentEvent × EventStore I). p.0) h))

  -- Let the source be one that its constructor has made, let the path be no link without its target, and
  -- let the events in memory, if there are any, be those that a new store would load from the file. Where
  -- `append` raises, the store and its file are as they were, or the store also holds the events that a new
  -- store would load, or the call was cancelled during a write that still took place: then the store holds
  -- the events before, and a new store would load one more, with the next number.
  pub append_refused :
      (c : Cancellation) (q : Request) (s s' : EventStore I) (owner message : String)
      → make_source q.source ≡ ok q.source
      → IsSynced I L s
      → append I c q s ≡ (violated owner message, s')
      → IsLeft c s s'
  unfolding append
  append_refused Cancellation.never q s s' owner message made synced h =
      elim (append_now_refused I L q s s' owner message synced h).1 [
        | inl same ↦ inl same
        | inr read ↦ inr (inl read)
      ]
  append_refused Cancellation.before_write q s s' owner message made synced h =
      inl (ap (λ (p : Checked AgentEvent × EventStore I). p.1) (sym h))
  append_refused (Cancellation.during_write lands) q s s' owner message made synced h =
      subst (IsLeft (Cancellation.during_write lands) s)
        (ap (λ (p : Checked AgentEvent × EventStore I). p.1) h)
        (cancel_loaded-IsLeft lands q s made synced)

  holding-IsSynced :
      (s : EventStore I) (es : List AgentEvent)
      → is_dangling I s.file ≡ false
      → fresh_events I s ≡ ok es
      → s.events ≡ some es
      → IsSynced I L s
  holding-IsSynced s es solid fresh held = (solid, λ events same. fresh ∙ ap ok (ground arith))

  left-IsSynced :
      (c : Cancellation) (s s' : EventStore I)
      → c ≢ Cancellation.during_write true
      → IsSynced I L s
      → IsLeft c s s'
      → IsSynced I L s'
  left-IsSynced c s s' whole synced (inl same) = subst (IsSynced I L) (sym same) synced
  left-IsSynced c s s' whole synced (inr (inl (es, fresh, same))) =
      subst (IsSynced I L) (sym same) (
        holding-IsSynced (remembering I es s) es synced.0
          (remembering-fresh_events I L s es ∙ fresh) refl)
  left-IsSynced c s s' whole synced (inr (inr (es, e, file, landed, a, b, d, n, f))) =
      absurd (whole landed)

  -- Let the source be one that its constructor has made, and let the call not be cancelled during a write
  -- that still takes place. If the path is no link without its target and the events in memory, where
  -- there are any, are those that a new store would load from the file, then so it is after `append`,
  -- whether it returns or raises.
  pub append-IsSynced :
      (c : Cancellation) (q : Request) (s : EventStore I)
      → make_source q.source ≡ ok q.source
      → c ≢ Cancellation.during_write true
      → IsSynced I L s
      → IsSynced I L (append I c q s).1
  append-IsSynced c q s made whole synced = elim (Checked-cases (append I c q s).0) [
    | inl (e, done) ↦
        let (es, fresh, numbered, solid, after, held) =
          append-fresh_events c q s (append I c q s).1 e made synced
            (pair_of I L (append I c q s) (ok e) done) in
        holding-IsSynced (append I c q s).1 (es ++ (e ∷ [])) solid after held
    | inr (owner, message, failed) ↦ left-IsSynced c s (append I c q s).1 whole synced (
        append_refused c q s (append I c q s).1 owner message made synced
          (pair_of I L (append I c q s) (violated owner message) failed))
  ]
