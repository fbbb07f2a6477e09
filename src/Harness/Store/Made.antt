-- ===== src/Harness/Store/Made.antt =====
-- Events that `AgentEvent` of src/aegisrun/harness/events.py has made, and the records of them.
use equi_seek.Prelude.{
  ◌+◌, ◌≡◌, refl, sym, ap, ◌∙◌, true, false, some, arith, subst, [], ◌∷◌, Option-cases, inl, inr,
  Bool-cases, ltb, nat_eq, ◌||◌,
}
use equi_seek.Dict.{Dict}
use equi_seek.Data.Json.{Value, Fields}
use equi_seek.Harness.Checked.{ok, demand}
use equi_seek.Harness.Events.{AgentEvent}
use equi_seek.Harness.Store.Json.{Interpreter, JsonLaws, get, fields_of, dict_of, fields_of-dict_of}
use equi_seek.Harness.Store.Make.{
  make_source, make_event, Draft, is_sound, event_of, with_payload, snapshot,
}
use equi_seek.Harness.Store.Record.{source_to_dict, to_dict, from_dict, malformed}
use equi_seek.Harness.Store.Log.{read_record, max_event_bytes, encoded}
use equi_seek.Harness.Store.Reread.{redraft, read_event-to_dict, get_kept}

dict_of-fields_of : (d : Dict Value) → dict_of (fields_of d) ≡ d
unfolding fields_of dict_of
dict_of-fields_of [] = refl
dict_of-fields_of ((k, v) ∷ d) = ap (λ (r : Dict Value). (k, v) ∷ r) (dict_of-fields_of d)

module _ (I : Interpreter) (L : JsonLaws I) where
  open L use {
    canonical, canonical_fields, canonical_obj, canonical_canonical, loads_dumps, dumps_canonical,
    decode_encode, encoded_size,
  }

  -- what the constructors have checked
  pub record IsMade (e : AgentEvent) : Type 0 where
    pub source_made : make_source e.source ≡ ok e.source
    pub sound : is_sound (redraft I L e (fields_of e.payload)) ≡ true
    pub payload_kept :
        snapshot I (Value.obj (fields_of e.payload)) ≡ some (Value.obj (fields_of e.payload))
    pub payload_sorted :
        canonical (Value.obj (fields_of e.payload)) ≡ Value.obj (fields_of e.payload)

  snapshot-canonical :
      (v w : Value) → snapshot I v ≡ some w → (canonical w ≡ w) × (snapshot I w ≡ some w)
  unfolding snapshot
  snapshot-canonical v w h = elim (Option-cases (I.dumps v)) [
    | inl failed ↦ absurd (ground arith)
    | inr (t, e) ↦
        let read : I.loads t ≡ some (canonical v) = loads_dumps v t e in
        let same : canonical v ≡ w = ground arith in
        let again : I.dumps w ≡ some t =
          subst (λ u. I.dumps u ≡ some t) same (dumps_canonical v t e) in
        (subst (λ u. canonical u ≡ u) same (canonical_canonical v), ground arith)
  ]

  obj_of :
      (d : Draft) (v : Value) (e : AgentEvent)
      → with_payload d (some v) ≡ ok e
      → (fs : Fields) × (v ≡ Value.obj fs) × (e ≡ event_of d (dict_of fs))
  obj_of d (Value.obj fs) e h = (fs, refl, cc)
  obj_of d (Value.str s) e h = absurd (cc)
  obj_of d (Value.arr s) e h = absurd (cc)
  obj_of d (Value.int b n) e h = absurd (cc)
  obj_of d (Value.float s) e h = absurd (cc)
  obj_of d (Value.bool s) e h = absurd (cc)
  obj_of d Value.null e h = absurd (cc)

  event_of-IsMade :
      (d : Draft) (fs : Fields)
      → make_source d.source ≡ ok d.source
      → is_sound d ≡ true
      → snapshot I d.payload ≡ some (Value.obj fs)
      → IsMade (event_of d (dict_of fs))
  event_of-IsMade d fs made sound read =
      let kept = snapshot-canonical d.payload (Value.obj fs) read in
      let back : Value.obj fs ≡ Value.obj (fields_of (dict_of fs)) =
        ap Value.obj (sym (fields_of-dict_of fs)) in
      record {
        source_made = made;
        sound = sound;
        payload_kept = subst (λ (v : Value). snapshot I v ≡ some v) back kept.1;
        payload_sorted = subst (λ (v : Value). canonical v ≡ v) back kept.0;
      }

  pub make_event-IsMade :
      (d : Draft) (e : AgentEvent)
      → make_source d.source ≡ ok d.source
      → make_event I d ≡ ok e
      → IsMade e
  unfolding make_event demand
  make_event-IsMade d e made h = elim (Bool-cases (is_sound d)) [
    | inr unsound ↦ absurd (ground arith)
    | inl sound ↦ elim (Option-cases (snapshot I d.payload)) [
      | inl failed ↦ absurd (ground arith)
      | inr (v, read) ↦
          let read_as : with_payload d (some v) ≡ ok e = ground arith in
          let (fs, is_obj, is_event) = obj_of d v e read_as in
          subst IsMade (sym is_event) (event_of-IsMade d fs made sound (read ∙ ap some is_obj))
    ]
  ]

  -- what the event takes over from the arguments
  pub make_event_lem :
      (d : Draft) (e : AgentEvent)
      → make_event I d ≡ ok e
      → (e.run_id ≡ d.run_id) × (e.session_id ≡ d.session_id) × (e.seq ≡ d.seq)
  unfolding make_event demand
  make_event_lem d e h = elim (Bool-cases (is_sound d)) [
    | inr unsound ↦ absurd (ground arith)
    | inl sound ↦ elim (Option-cases (snapshot I d.payload)) [
      | inl failed ↦ absurd (ground arith)
      | inr (v, read) ↦
          let read_as : with_payload d (some v) ≡ ok e = ground arith in
          let (fs, is_obj, is_event) = obj_of d v e read_as in
          (
            ap (λ (x : AgentEvent). x.run_id) is_event,
            ap (λ (x : AgentEvent). x.session_id) is_event,
            ap (λ (x : AgentEvent). x.seq) is_event,
          )
    ]
  ]

  remake : (e : AgentEvent) → IsMade e → make_event I (redraft I L e (fields_of e.payload)) ≡ ok e
  unfolding make_event demand
  remake e m = rw (m.sound, m.payload_kept, dict_of-fields_of e.payload) refl

  from_dict-to_dict :
      (e : AgentEvent) → IsMade e → from_dict I (canonical_fields (to_dict e)) ≡ ok e
  unfolding from_dict get to_dict malformed
  from_dict-to_dict e m =
      let source : get "source" (canonical_fields (to_dict e))
          ≡ some (Value.obj (canonical_fields (source_to_dict e.source))) =
        get_kept I L "source" (to_dict e) (Value.obj (source_to_dict e.source)) _ refl
          (canonical_obj _) in
      let payload : get "payload" (canonical_fields (to_dict e))
          ≡ some (Value.obj (fields_of e.payload)) =
        get_kept I L "payload" (to_dict e) (Value.obj (fields_of e.payload)) _ refl
          m.payload_sorted in
      rw (source, payload, read_event-to_dict I L e (fields_of e.payload) m.source_made, remake e m)
        refl

  -- the record of an event is read as the event
  pub read_record-encoded :
      (e : AgentEvent) (raw : I.Bytes)
      → IsMade e
      → encoded I (I.dumps (Value.obj (to_dict e))) ≡ some raw
      → ltb max_event_bytes (I.size raw + 1) ≡ false
      → read_record I raw ≡ ok e
  unfolding read_record demand
  read_record-encoded e raw m h small = elim (Option-cases (I.dumps (Value.obj (to_dict e)))) [
    | inl failed ↦ absurd (ground arith)
    | inr (t, dumped) ↦
        let coded : I.encode t ≡ some raw = ground arith in
        let read : I.loads t ≡ some (Value.obj (canonical_fields (to_dict e))) =
          loads_dumps _ t dumped ∙ ap some (canonical_obj (to_dict e)) in
        let fits : (nat_eq (I.size raw) 0 || ltb max_event_bytes (I.size raw)) ≡ false =
          ground (arith, encoded_size _ t raw dumped coded) in
        rw (fits, decode_encode t raw coded, read, from_dict-to_dict e m) refl
  ]
