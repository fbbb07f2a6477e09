-- ===== src/Harness/Store/Synced.antt =====
-- What `WorkspaceEventStore` of src/aegisrun/harness/events.py keeps true of its file.
use equi_seek.Prelude.{
  ◌+◌, String, ◌≡◌, refl, ap, true, false, none, some, arith, subst, List, [], ◌∷◌, ◌++◌,
  Option-cases, inl, inr, Bool-cases, ltb, length,
}
use equi_seek.Data.Json.{Value}
use equi_seek.Harness.Checked.{ok, ◌>>=◌, demand, Checked-cases}
use equi_seek.Harness.Events.{AgentEvent}
use equi_seek.Harness.Store.Json.{Interpreter, JsonLaws}
use equi_seek.Harness.Store.Make.{make_event}
use equi_seek.Harness.Store.Record.{to_dict}
use equi_seek.Harness.Store.Log.{
  File, max_event_bytes, encoded, read_record, read_records, load_sync, append_sync, is_of_store,
  write_line, is_link, is_dangling,
}
use equi_seek.Harness.Store.Append.{EventStore, Request, validated, fresh_events, append_to, draft}
use equi_seek.Harness.Store.Made.{IsMade, read_record-encoded}

module _ (I : Interpreter) (L : JsonLaws I) where
  -- the path is no link without its target, and what is in memory is what a new store would load
  abbrev pub IsSynced : EventStore I → Type 0
  IsSynced s =
      (is_dangling I s.file ≡ false)
      × ((events : List AgentEvent) → s.events ≡ some events → fresh_events I s ≡ ok events)

  nothing : (run_id session_id : String) → read_records I run_id session_id [] ≡ ok []
  unfolding read_records
  nothing run_id session_id = refl

  read_records-append :
      (run_id session_id : String) (lines : List I.Bytes) (raw : I.Bytes) (es : List AgentEvent)
      (e : AgentEvent)
      → read_records I run_id session_id lines ≡ ok es
      → read_record I raw ≡ ok e
      → is_of_store I run_id session_id e ≡ true
      → read_records I run_id session_id (lines ++ (raw ∷ [])) ≡ ok (es ++ (e ∷ []))
  unfolding read_records demand ◌>>=◌
  read_records-append run_id session_id [] raw es e h r same = rw (r, same) (ground arith)
  read_records-append run_id session_id (line ∷ lines) raw es e h r same =
      elim (Checked-cases (read_record I line)) [
        | inr (owner, message, failed) ↦ absurd (ground arith)
        | inl (first, read) ↦ elim (Bool-cases (is_of_store I run_id session_id first)) [
          | inr foreign ↦ absurd (ground arith)
          | inl own ↦ elim (Checked-cases (read_records I run_id session_id lines)) [
            | inr (owner, message, failed) ↦ absurd (ground arith)
            | inl (rest, others) ↦
                let more = read_records-append run_id session_id lines raw rest e others r same in
                let split : first ∷ rest ≡ es = ground arith in
                rw (read, own, more) (ap (λ (l : List AgentEvent). ok (l ++ (e ∷ []))) split)
          ]
        ]
      ]

  load_sync-write_line :
      (run_id session_id : String) (raw : I.Bytes) (file after : File I) (es : List AgentEvent)
      (e : AgentEvent)
      → is_dangling I file ≡ false
      → load_sync I run_id session_id file ≡ ok es
      → write_line I raw file ≡ ok after
      → read_record I raw ≡ ok e
      → is_of_store I run_id session_id e ≡ true
      → (is_dangling I after ≡ false) × (load_sync I run_id session_id after ≡ ok (es ++ (e ∷ [])))
  unfolding load_sync
  load_sync-write_line run_id session_id raw File.absent after es e d h w r same =
      let is_new : File.regular (raw ∷ []) none ≡ after = cc in
      let none_yet : [] ≡ es = cc in
      subst
        (λ (f : File I).
          (is_dangling I f ≡ false) × (load_sync I run_id session_id f ≡ ok (es ++ (e ∷ []))))
        is_new
        (
          refl,
          subst
              (λ (l : List AgentEvent).
                read_records I run_id session_id (raw ∷ []) ≡ ok (l ++ (e ∷ [])))
              none_yet
              (read_records-append run_id session_id [] raw [] e (nothing run_id session_id) r
                same),
        )
  load_sync-write_line run_id session_id raw File.link after es e d h w r same = absurd (cc)
  load_sync-write_line run_id session_id raw (File.dangling b) after es e d h w r same = absurd (cc)
  load_sync-write_line run_id session_id raw File.directory after es e d h w r same = absurd (cc)
  load_sync-write_line run_id session_id raw (File.regular lines (some t)) after es e d h w r same =
      absurd (cc)
  load_sync-write_line run_id session_id raw (File.regular lines none) after es e d h w r same =
      let is_new : File.regular (lines ++ (raw ∷ [])) none ≡ after = cc in
      subst
        (λ (f : File I).
          (is_dangling I f ≡ false) × (load_sync I run_id session_id f ≡ ok (es ++ (e ∷ []))))
        is_new (refl, read_records-append run_id session_id lines raw es e h r same)

  -- a written record is loaded after those that were there
  pub load_sync-append_sync :
      (run_id session_id : String) (file after : File I) (es : List AgentEvent) (e : AgentEvent)
      → is_dangling I file ≡ false
      → load_sync I run_id session_id file ≡ ok es
      → append_sync I e file ≡ ok after
      → IsMade I L e
      → is_of_store I run_id session_id e ≡ true
      → (is_dangling I after ≡ false) × (load_sync I run_id session_id after ≡ ok (es ++ (e ∷ [])))
  unfolding append_sync demand
  load_sync-append_sync run_id session_id file after es e d h w m same =
      elim (Bool-cases (is_link I file)) [
        | inl linked ↦ absurd (ground arith)
        | inr real ↦ elim (Option-cases (encoded I (I.dumps (Value.obj (to_dict e))))) [
          | inl failed ↦ absurd (ground arith)
          | inr (raw, written) ↦ elim (Bool-cases (ltb max_event_bytes (I.size raw + 1))) [
            | inl big ↦ absurd (ground arith)
            | inr small ↦
                load_sync-write_line run_id session_id raw file after es e d h (ground arith)
                  (read_record-encoded I L e raw m written small) same
          ]
        ]
      ]

  -- the events that `append` keeps are those that it found, and the new one
  pub append_to_lem :
      (s : EventStore I) (q : Request) (es : List AgentEvent) (e : AgentEvent) (after : File I)
      → append_to I s q es ≡ ok (e, after)
      → (make_event I (draft I s q (length es + 1)) ≡ ok e)
        × (validated s.invariants (es ++ (e ∷ [])) ≡ ok tt)
        × (append_sync I e s.file ≡ ok after)
  unfolding append_to ◌>>=◌
  append_to_lem s q es e after h =
      elim (Checked-cases (make_event I (draft I s q (length es + 1)))) [
        | inr (owner, message, failed) ↦ absurd (ground arith)
        | inl (made, is_made) ↦ elim (Checked-cases (validated s.invariants (es ++ (made ∷ [])))) [
          | inr (owner, message, failed) ↦ absurd (ground arith)
          | inl (tt, valid) ↦ elim (Checked-cases (append_sync I made s.file)) [
            | inr (owner, message, failed) ↦ absurd (ground arith)
            | inl (f, written) ↦ (ground arith, ground arith, ground arith)
          ]
        ]
      ]
