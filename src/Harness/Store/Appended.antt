-- ===== src/Harness/Store/Appended.antt =====
-- What an uncancelled `append` of `WorkspaceEventStore` in src/aegisrun/harness/events.py does to its file.
use equi_seek.Prelude.{
  ◌+◌, String, ◌≡◌, refl, sym, ap, ◌∙◌, true, false, none, some, arith, List, [], ◌∷◌, ◌++◌,
  Option-cases, inl, inr, ◌⊎◌, eq_refl, length,
}
use equi_seek.Harness.Checked.{Checked, ok, violated, ◌>>=◌, Checked-cases}
use equi_seek.Harness.Events.{AgentEvent}
use equi_seek.Harness.Store.Json.{Interpreter, JsonLaws}
use equi_seek.Harness.Store.Make.{make_source}
use equi_seek.Harness.Store.Log.{File, load_sync, is_of_store, is_dangling}
use equi_seek.Harness.Store.Append.{
  EventStore, Request, validated, fresh_events, load, append_now, append_to, append_loaded, stored,
  remembering,
}
use equi_seek.Harness.Store.Made.{make_event-IsMade, make_event_lem}
use equi_seek.Harness.Store.Synced.{IsSynced, load_sync-append_sync, append_to_lem}

module _ (I : Interpreter) (L : JsonLaws I) where
  fresh_events_lem :
      (s : EventStore I) (es : List AgentEvent)
      → fresh_events I s ≡ ok es
      → load_sync I s.run_id s.session_id s.file ≡ ok es
  unfolding fresh_events ◌>>=◌
  fresh_events_lem s es h = elim (Checked-cases (load_sync I s.run_id s.session_id s.file)) [
    | inr (owner, message, failed) ↦ absurd (ground arith)
    | inl (events, read) ↦ elim (Checked-cases (validated s.invariants events)) [
      | inr (owner, message, failed) ↦ absurd (ground arith)
      | inl (tt, valid) ↦ ground arith
    ]
  ]

  fresh_events-valid :
      (s : EventStore I) (es : List AgentEvent)
      → load_sync I s.run_id s.session_id s.file ≡ ok es
      → validated s.invariants es ≡ ok tt
      → fresh_events I s ≡ ok es
  unfolding fresh_events ◌>>=◌
  fresh_events-valid s es read valid = rw (read, valid) refl

  -- what a file holds after an append that was let through
  pub append_to-fresh_events :
      (s : EventStore I) (q : Request) (es : List AgentEvent) (e : AgentEvent) (after : File I)
      → make_source q.source ≡ ok q.source
      → is_dangling I s.file ≡ false
      → fresh_events I s ≡ ok es
      → append_to I s q es ≡ ok (e, after)
      → (e.seq ≡ length es + 1)
        × (is_dangling I after ≡ false)
        × (fresh_events I (record s { file = after; events = some (es ++ (e ∷ [])) })
            ≡ ok (es ++ (e ∷ [])))
  append_to-fresh_events s q es e after made solid fresh h =
      let (is_made, valid, written) = append_to_lem I L s q es e after h in
      let kept = make_event_lem I L _ e is_made in
      let own : is_of_store I s.run_id s.session_id e ≡ true =
        ground (arith, eq_refl s.run_id, eq_refl s.session_id, kept) in
      let there =
        load_sync-append_sync I L s.run_id s.session_id s.file after es e solid
          (fresh_events_lem s es fresh) written (make_event-IsMade I L _ e made is_made) own in
      (kept.2, there.0, fresh_events-valid _ (es ++ (e ∷ [])) there.1 valid)

  -- where `load` returns events, a new store loads them too
  pub load_lem :
      (s : EventStore I)
      → IsSynced I L s
      → ((es : List AgentEvent) × (fresh_events I s ≡ ok es)
          × (load I s ≡ (ok es, remembering I es s)))
        ⊎ ((owner : String) × (message : String) × (s.events ≡ none)
            × (load I s ≡ (violated owner message, s)))
  unfolding load fresh_events
  load_lem s synced = elim (Option-cases s.events) [
    | inr (es, held) ↦ inl (es, synced.1 es held, rw held refl)
    | inl nothing ↦ elim (Checked-cases (fresh_events I s)) [
      | inl (es, fresh) ↦ inl (es, fresh, rw (nothing, fresh) refl)
      | inr (owner, message, failed) ↦ inr (owner, message, nothing, rw (nothing, failed) refl)
    ]
  ]

  pub pair_of :
      (p : Checked AgentEvent × EventStore I) (c : Checked AgentEvent) → p.0 ≡ c → p ≡ (c, p.1)
  pair_of (a, b) c e = ap (λ x. (x, b)) e

  append_now-loaded :
      (q : Request) (s : EventStore I) (es : List AgentEvent)
      → load I s ≡ (ok es, remembering I es s)
      → append_now I q s ≡ stored I es (append_to I (remembering I es s) q es) (remembering I es s)
  unfolding append_now
  append_now-loaded q s es found = ap (append_loaded I q) found

  append_now-failed :
      (q : Request) (s : EventStore I) (owner message : String)
      → load I s ≡ (violated owner message, s)
      → append_now I q s ≡ (violated owner message, s)
  unfolding append_now
  append_now-failed q s owner message failed = ap (append_loaded I q) failed

  pub remembering-fresh_events :
      (s : EventStore I) (es : List AgentEvent)
      → fresh_events I (remembering I es s) ≡ fresh_events I s
  unfolding fresh_events
  remembering-fresh_events s es = refl

  stored_lem :
      (es : List AgentEvent) (e x : AgentEvent) (after : File I) (s s' : EventStore I)
      → stored I es (ok (x, after)) s ≡ (ok e, s')
      → (x ≡ e) × (record s { file = after; events = some (es ++ (x ∷ [])) } ≡ s')
  stored_lem es e x after s s' h = (cc, ap (λ (p : Checked AgentEvent × EventStore I). p.1) h)

  pub append_now-fresh_events :
      (q : Request) (s s' : EventStore I) (e : AgentEvent)
      → make_source q.source ≡ ok q.source
      → IsSynced I L s
      → append_now I q s ≡ (ok e, s')
      → (es : List AgentEvent) × (fresh_events I s ≡ ok es)
        × (e.seq ≡ length es + 1)
        × (is_dangling I s'.file ≡ false)
        × (fresh_events I s' ≡ ok (es ++ (e ∷ [])))
        × (s'.events ≡ some (es ++ (e ∷ [])))
  append_now-fresh_events q s s' e made synced h = elim (load_lem s synced) [
    | inr (owner, message, nothing, failed) ↦
        absurd (ground (arith, append_now-failed q s owner message failed))
    | inl (es, fresh, found) ↦
        let r : EventStore I = remembering I es s in
        let shape = append_now-loaded q s es found in
        elim (Checked-cases (append_to I r q es)) [
          | inr (owner, message, failed) ↦ absurd (ground (arith, shape, failed))
          | inl ((x, after), done) ↦
              let (same, state) =
                stored_lem es e x after r s'
                  (sym (ap (λ c. stored I es c r) done) ∙ sym shape ∙ h) in
              let kept =
                append_to-fresh_events r q es x after made synced.0
                  (remembering-fresh_events s es ∙ fresh) done in
              (
                es,
                fresh,
                ap (λ (y : AgentEvent). y.seq) (sym same) ∙ kept.0,
                ap (λ (y : EventStore I). is_dangling I y.file) (sym state) ∙ kept.1,
                ap (fresh_events I) (sym state)
                    ∙ kept.2
                    ∙ ap (λ (y : AgentEvent). ok (es ++ (y ∷ []))) same,
                ap (λ (y : EventStore I). y.events) (sym state)
                    ∙ ap (λ (y : AgentEvent). some (es ++ (y ∷ []))) same,
              )
        ]
  ]

  pub append_now_refused :
      (q : Request) (s s' : EventStore I) (owner message : String)
      → IsSynced I L s
      → append_now I q s ≡ (violated owner message, s')
      → (s'.file ≡ s.file)
        × ((s' ≡ s)
            ⊎ ((es : List AgentEvent) × (fresh_events I s ≡ ok es)
                × (s' ≡ record s { events = some es })))
  append_now_refused q s s' owner message synced h = elim (load_lem s synced) [
    | inr (o, m, nothing, failed) ↦
        let same : s ≡ s' =
          ap (λ (p : Checked AgentEvent × EventStore I). p.1)
            (sym (append_now-failed q s o m failed) ∙ h) in
        (ap (λ (y : EventStore I). y.file) (sym same), inl (sym same))
    | inl (es, fresh, found) ↦
        let r : EventStore I = remembering I es s in
        let shape = append_now-loaded q s es found in
        elim (Checked-cases (append_to I r q es)) [
          | inl ((x, after), done) ↦ absurd (ground (arith, shape, done))
          | inr (o, m, failed) ↦
              let same : r ≡ s' =
                ap (λ (p : Checked AgentEvent × EventStore I). p.1)
                  (sym (ap (λ c. stored I es c r) failed) ∙ sym shape ∙ h) in
              (ap (λ (y : EventStore I). y.file) (sym same), inr (es, fresh, sym same))
        ]
  ]
