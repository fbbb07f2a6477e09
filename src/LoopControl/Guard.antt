-- ===== src/LoopControl/Guard.antt =====
-- What the guard of `AgentLoopHarness` in src/aegisrun/harness/loop_control.py counts.
use equi_seek.Prelude.{
  ℕ, ◌+◌, String, ◌==◌, eq_iff, ◌≡◌, ◌↔◌, refl, Bool, true, false, ◌&&◌, List, [], ◌∷◌, elem, any,
  if◌then◌else◌, arith, inl, inr, Bool-cases, ap, sym, ◌∙◌,
}
use equi_seek.LoopControl.State.{
  AgentLoopHarness, ToolCallGuardDecision, is_runtime, before_tool, is_threshold, follow_call,
  count_call, start_matching_plan_item, matches, next_count,
}

-- the calls, a tool's name and a fingerprint each, the newest one first
abbrev pub Calls : Type 0
Calls = List (String × String)

unfoldable pub replay : Calls → AgentLoopHarness → AgentLoopHarness
replay [] s = s
replay ((name, fingerprint) ∷ older) s = (before_tool name fingerprint (replay older s)).1

abbrev pub is_usable : String → AgentLoopHarness → Bool
is_usable name s = elem name s.catalog && elem name s.promoted

-- how many of the calls that the guard let pass have the fingerprint, from the newest to the first
-- one that has another
abbrev pub streak : String → Calls → AgentLoopHarness → ℕ
streak f [] s = 0
streak f ((name, g) ∷ older) s =
    let rest = streak f older s in
    if is_usable name s then (if f == g then 1 + rest else 0) else rest

-- the fields that the guard reads
record SameGuard (s s' : AgentLoopHarness) : Type 0 where
  catalog : s'.catalog ≡ s.catalog
  promoted : s'.promoted ≡ s.promoted
  thresholds : s'.repeat_reminder_thresholds ≡ s.repeat_reminder_thresholds
  fingerprint : s'.last_call_fingerprint ≡ s.last_call_fingerprint
  count : s'.consecutive_repeat_count ≡ s.consecutive_repeat_count

SameGuard-refl : (s : AgentLoopHarness) → SameGuard s s
SameGuard-refl s = record {
  catalog = refl;
  promoted = refl;
  thresholds = refl;
  fingerprint = refl;
  count = refl;
}

start_matching-SameGuard :
    (name : String) (s : AgentLoopHarness) → SameGuard s (start_matching_plan_item name s)
unfolding start_matching_plan_item
start_matching-SameGuard name s = elim (Bool-cases (any (matches name) s.plan)) [
  | inl found ↦ rw found (record {
    catalog = refl;
    promoted = refl;
    thresholds = refl;
    fingerprint = refl;
    count = refl;
  })
  | inr other ↦ rw other (SameGuard-refl s)
]

follow_call-SameGuard : (name : String) (s : AgentLoopHarness) → SameGuard s (follow_call name s)
follow_call-SameGuard name s = elim (Bool-cases (is_runtime s.plan_owner)) [
  | inl runtime ↦ rw runtime (start_matching-SameGuard name s)
  | inr model ↦ rw model (SameGuard-refl s)
]

module _ (name f : String) (s : AgentLoopHarness) where
  followed : AgentLoopHarness
  followed = follow_call name (count_call f s)

  -- a call that passes is counted
  passed : is_usable name s ≡ true → SameGuard (count_call f s) (before_tool name f s).1
  unfolding before_tool followed
  passed u =
      let known : elem name s.catalog ≡ true = ground arith in
      let usable : elem name s.promoted ≡ true = ground arith in
      let same = follow_call-SameGuard name (count_call f s) in
      elim (Bool-cases
        (is_threshold followed.consecutive_repeat_count followed.repeat_reminder_thresholds)) [
          | inl reminded ↦
              rw (known, usable, reminded)
                (record {
                  catalog = same.catalog;
                  promoted = same.promoted;
                  thresholds = same.thresholds;
                  fingerprint = same.fingerprint;
                  count = same.count;
                })
          | inr silent ↦ rw (known, usable, silent) same
        ]

  -- a call that is refused is not
  refused : is_usable name s ≡ false → SameGuard s (before_tool name f s).1
  unfolding before_tool
  refused u = elim (Bool-cases (elem name s.catalog)) [
    | inl known ↦
        let deferred : elem name s.promoted ≡ false = ground arith in
        rw (known, deferred)
          (record {
            catalog = refl;
            promoted = refl;
            thresholds = refl;
            fingerprint = refl;
            count = refl;
          })
    | inr unknown ↦ rw unknown (record {
      catalog = refl;
      promoted = refl;
      thresholds = refl;
      fingerprint = refl;
      count = refl;
    })
  ]

  is_due : Bool
  is_due = is_threshold followed.consecutive_repeat_count followed.repeat_reminder_thresholds

  is_due_lem : is_due ≡ is_threshold (next_count f s) s.repeat_reminder_thresholds
  unfolding is_due followed
  is_due_lem =
      let same = follow_call-SameGuard name (count_call f s) in
      ap (λ n. is_threshold n followed.repeat_reminder_thresholds) same.count
      ∙ ap (is_threshold (next_count f s)) same.thresholds

  -- what the guard says of a call
  reminder_iff : ((before_tool name f s).0 ≡ ToolCallGuardDecision.repeated_tool_call_reminder) ↔ (
      (is_usable name s ≡ true)
      × (is_threshold (next_count f s) s.repeat_reminder_thresholds ≡ true))
  unfolding before_tool followed is_due
  reminder_iff = elim (Bool-cases (elem name s.catalog)) [
    | inl known ↦ elim (Bool-cases (elem name s.promoted)) [
      | inl usable ↦ elim (Bool-cases is_due) [
        | inl due ↦
            (λ e. (ground arith, ground (arith, is_due_lem)), λ h. rw (known, usable, due) refl)
        | inr silent ↦ (λ e. absurd (ground arith), λ (u, h). absurd (ground (arith, is_due_lem)))
      ]
      | inr deferred ↦ (λ e. absurd (ground arith), λ (u, h). absurd (ground arith))
    ]
    | inr unknown ↦ (λ e. absurd (ground arith), λ (u, h). absurd (ground arith))
  ]

-- the state after the calls, against the state before them
record IsCounting (s s' : AgentLoopHarness) (calls : Calls) : Type 0 where
  catalog : s'.catalog ≡ s.catalog
  promoted : s'.promoted ≡ s.promoted
  thresholds : s'.repeat_reminder_thresholds ≡ s.repeat_reminder_thresholds
  count : (f : String) → next_count f s' ≡ 1 + streak f calls s

module _ (s : AgentLoopHarness) (new : s.consecutive_repeat_count ≡ 0) where
  same_usable :
      (name : String) (s' : AgentLoopHarness) (calls : Calls)
      → IsCounting s s' calls
      → is_usable name s' ≡ is_usable name s
  same_usable name s' calls h = rw (h.catalog, h.promoted) refl

  replay-IsCounting : (calls : Calls) → IsCounting s (replay calls s) calls
  unfolding replay
  replay-IsCounting [] = record {
    catalog = refl;
    promoted = refl;
    thresholds = refl;
    count = λ f. ground arith;
  }
  replay-IsCounting ((name, g) ∷ older) =
      let s' = replay older s in
      let h = replay-IsCounting older in
      let same = same_usable name s' older h in
      elim (Bool-cases (is_usable name s')) [
        | inl usable ↦
            let step = passed name g s' usable in
            record {
              catalog = step.catalog ∙ h.catalog;
              promoted = step.promoted ∙ h.promoted;
              thresholds = step.thresholds ∙ h.thresholds;
              count = λ f.
                  ground
                    (arith, step.count, step.fingerprint, h.count f, h.count g, same, eq_iff f g);
            }
        | inr unusable ↦
            let step = refused name g s' unusable in
            record {
              catalog = step.catalog ∙ h.catalog;
              promoted = step.promoted ∙ h.promoted;
              thresholds = step.thresholds ∙ h.thresholds;
              count = λ f. ground (arith, step.count, step.fingerprint, h.count f, same);
            }
      ]

  -- From a new harness on, a call is answered by a reminder exactly if its tool is known and promoted and
  -- the number of times in a row that its fingerprint was then called, this call included, is one of
  -- the thresholds. Calls that the guard refused neither count nor end the row.
  pub before_tool_reminds :
      (older : Calls) (name f : String)
      → ((before_tool name f (replay older s)).0
          ≡ ToolCallGuardDecision.repeated_tool_call_reminder)
        ↔ ((is_usable name s ≡ true)
            × (is_threshold (1 + streak f older s) s.repeat_reminder_thresholds ≡ true))
  before_tool_reminds older name f =
      let h = replay-IsCounting older in
      let (there, back) = reminder_iff name f (replay older s) in
      let same = same_usable name (replay older s) older h in
      let due : is_threshold (next_count f (replay older s))
            (replay older s).repeat_reminder_thresholds
          ≡ is_threshold (1 + streak f older s) s.repeat_reminder_thresholds =
        ap (λ n. is_threshold n (replay older s).repeat_reminder_thresholds) (h.count f)
        ∙ ap (is_threshold (1 + streak f older s)) h.thresholds in
      (λ e. let (a, b) = there e in (sym same ∙ a, sym due ∙ b), λ (a, b). back (same ∙ a, due ∙ b))
