-- ===== src/Harness/Surface.antt =====
-- `surface_invariant` of src/aegisrun/harness/invariants.py.
use equi_seek.Prelude.{
  ℕ, ◌-◌, ◌<◌, ◌≤◌, String, ◌==◌, ◌≡◌, refl, Bool, true, false, ◌&&◌, Option, none, some, List, [],
  ◌∷◌, nat_eq, leb, ltb, if◌then◌else◌, arith, inl, inr, Bool-cases, subst,
}
use equi_seek.Dict.{lookup}
use equi_seek.Data.Json.{Value, Items}
use equi_seek.Harness.Checked.{Checked, ok, demand, ◌>>=◌, Checked-cases}
use equi_seek.Harness.Events.{AgentEvent}
use equi_seek.Harness.Session.{session_invariant, session_invariant_iff, element, element_found}

-- `value == text`
abbrev is_string : Option Value → String → Bool
is_string (some (Value.str s)) t = s == t
is_string _ t = false

-- `isinstance(content, tuple) and content`
abbrev has_items : Option Value → Bool
has_items (some (Value.arr (Items.cons x xs))) = true
has_items _ = false

-- `isinstance(message, Mapping)`
abbrev is_object : Option Value → Bool
is_object (some (Value.obj fields)) = true
is_object _ = false

-- the value of an `int` that is not negative; `bool` is a subclass of `int`
abbrev pub natural : Option Value → Option ℕ
natural (some (Value.int false n)) = some n
natural (some (Value.int true n)) = if nat_eq n 0 then some 0 else none
natural (some (Value.bool b)) = some (if b then 1 else 0)
natural _ = none

-- the negation of the conditions on a replacement range: a negative bound meets none of them
abbrev is_range : Option ℕ → Option ℕ → ℕ → Bool
is_range (some start) (some stop) seq = leb 1 start && leb start stop && ltb stop seq
is_range _ _ seq = false

unfoldable pub check_message : String → AgentEvent → Checked (Unit {0})
check_message role e =
    demand (is_string (lookup "role" e.payload) role) "surface"
      "message role does not match event type"
      (demand (has_items (lookup "content" e.payload)) "surface" "message content must be non-empty"
        (ok tt))

unfoldable pub check_replace : AgentEvent → Checked (Unit {0})
check_replace e =
    demand
      (is_range (natural (lookup "start_seq" e.payload)) (natural (lookup "end_seq" e.payload))
        e.seq)
      "surface" "replacement range is invalid"
      (demand (is_object (lookup "message" e.payload)) "surface" "replacement message is missing"
        (ok tt))

-- the body of the loop
unfoldable pub check_event : AgentEvent → Checked (Unit {0})
check_event e =
    if e.event_type == "user/message"
    then check_message "user" e
    else if e.event_type == "assistant/message"
    then check_message "assistant" e
    else if e.event_type == "surface/replace"
    then check_replace e
    else ok tt

unfoldable pub surface_invariant : List AgentEvent → Checked (Unit {0})
surface_invariant [] = ok tt
surface_invariant (e ∷ es) = check_event e >>= λ done. surface_invariant es

surface_each :
    (es : List AgentEvent) (i : ℕ) (e : AgentEvent)
    → surface_invariant es ≡ ok tt
    → element es i ≡ some e
    → check_event e ≡ ok tt
unfolding surface_invariant ◌>>=◌ element
surface_each [] i e h found = cc
surface_each (x ∷ xs) i e h found = elim (Checked-cases (check_event x)) [
  | inl (done, eq) ↦ elim (Bool-cases (nat_eq i 0)) [
    | inl first ↦ let same : x ≡ e = ground arith in subst (λ y. check_event y ≡ ok tt) same eq
    | inr later ↦
        surface_each xs (i - 1) e (subst (λ c. (c >>= λ u. surface_invariant xs) ≡ ok tt) eq h)
          (ground arith)
  ]
  | inr (o, m, eq) ↦ absurd (ground arith)
]

range_facts :
    (start stop : Option ℕ) (seq : ℕ)
    → is_range start stop seq ≡ true
    → (a : ℕ) × (b : ℕ) × (start ≡ some a) × (stop ≡ some b) × (1 ≤ a) × (a ≤ b) × (b < seq)
range_facts none stop seq h = cc
range_facts (some a) none seq h = cc
range_facts (some a) (some b) seq h = (a, b, refl, refl, ground arith, ground arith, ground arith)

replace_range :
    (e : AgentEvent)
    → check_event e ≡ ok tt
    → e.event_type ≡ "surface/replace"
    → is_range (natural (lookup "start_seq" e.payload)) (natural (lookup "end_seq" e.payload)) e.seq
      ≡ true
unfolding check_event check_replace demand
replace_range e h k =
    let h' =
      subst
        (λ t.
          (if t == "user/message"
            then check_message "user" e
            else if t == "assistant/message"
            then check_message "assistant" e
            else if t == "surface/replace"
            then check_replace e
            else ok tt)
          ≡ ok tt)
        k h in
    elim (Bool-cases (
      is_range (natural (lookup "start_seq" e.payload)) (natural (lookup "end_seq" e.payload))
        e.seq)) [ inl good ↦ good | inr bad ↦ absurd (ground arith) ]

-- the event with that number stands in the stream
abbrev pub Numbered : List AgentEvent → ℕ → Type 0
Numbered es n = (e : AgentEvent) × (element es (n - 1) ≡ some e) × (e.seq ≡ n)

-- In a stream that the session check and the surface check accept, an event that replaces a part of
-- the surface names a range of earlier events of the same stream: both its ends are numbers of events
-- that stand before it, and the first is not after the last.
pub surface_replacements :
    (es : List AgentEvent)
    → session_invariant es ≡ ok tt
    → surface_invariant es ≡ ok tt
    → (i : ℕ) (e : AgentEvent) → element es i ≡ some e
    → e.event_type ≡ "surface/replace"
    → (a : ℕ) × (b : ℕ) × (natural (lookup "start_seq" e.payload) ≡ some a)
      × (natural (lookup "end_seq" e.payload) ≡ some b)
      × (a ≤ b)
      × (b < e.seq)
      × Numbered es a
      × Numbered es b
surface_replacements es session surface i e found k =
    let (a, b, from, till, positive, ordered, before) =
      range_facts (natural (lookup "start_seq" e.payload)) (natural (lookup "end_seq" e.payload))
        e.seq (replace_range e (surface_each es i e surface found) k) in
    let (first, found_first) = element_found es 0 i e found (ground arith) in
    let numbered = (session_invariant_iff es).0 session first found_first in
    let (seq_e, _, _) = numbered i e found in
    let (x, found_x) = element_found es (a - 1) i e found (ground arith) in
    let (y, found_y) = element_found es (b - 1) i e found (ground arith) in
    let (seq_x, _, _) = numbered (a - 1) x found_x in
    let (seq_y, _, _) = numbered (b - 1) y found_y in
    (a, b, from, till, ordered, before, (x, found_x, ground arith), (y, found_y, ground arith))
