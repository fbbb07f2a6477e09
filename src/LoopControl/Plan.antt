-- ===== src/LoopControl/Plan.antt =====
-- The plan of `AgentLoopHarness` in src/aegisrun/harness/loop_control.py has one active item at most.
use equi_seek.Prelude.{
  ℕ, ◌+◌, ◌≤◌, String, ◌==◌, ◌≡◌, refl, Bool, true, false, not, ◌||◌, List, [], ◌∷◌, elem, any,
  if◌then◌else◌, arith, inl, inr, Bool-cases,
}
use equi_seek.LoopControl.State.{
  ItemStatus, HarnessPlanItem, AgentLoopHarness, is_active, is_waiting, is_runtime, set_status,
  pause, pause_all, change_first, matches, start_item, start_matching_plan_item,
  start_next_pending_plan_item, before_tool, is_threshold, follow_call, count_call, settle_item,
  runs_tool, settle_matching, after_tool,
}

abbrev pub bit : Bool → ℕ
bit b = if b then 1 else 0

abbrev pub active_count : List HarnessPlanItem → ℕ
active_count [] = 0
active_count (item ∷ items) = bit (is_active item.status) + active_count items

pause_lem : (item : HarnessPlanItem) → is_active (pause item).status ≡ false
pause_lem item = elim (Bool-cases (is_active item.status)) [
  | inl active ↦ ground arith
  | inr idle ↦ ground arith
]

active_count-pause_all : (items : List HarnessPlanItem) → active_count (pause_all items) ≡ 0
unfolding pause_all
active_count-pause_all [] = refl
active_count-pause_all (item ∷ items) = ground (arith, pause_lem item, active_count-pause_all items)

active_count-start_item :
    (name : String) (items : List HarnessPlanItem) → active_count (start_item name items) ≤ 1
unfolding start_item
active_count-start_item name [] = omega arith
active_count-start_item name (item ∷ items) = elim (Bool-cases (matches name item)) [
  | inl found ↦ ground (arith, active_count-pause_all items)
  | inr other ↦ ground (arith, pause_lem item, active_count-start_item name items)
]

-- without an active item the count is 0
none_active :
    (items : List HarnessPlanItem)
    → any (λ item. is_active item.status) items ≡ false
    → active_count items ≡ 0
unfolding any
none_active [] h = refl
none_active (item ∷ items) h = ground (arith, none_active items)

-- one item at most becomes active
active_count-change_first :
    (p : HarnessPlanItem → Bool) (f : HarnessPlanItem → HarnessPlanItem)
    (items : List HarnessPlanItem)
    → active_count (change_first p f items) ≤ 1 + active_count items
unfolding change_first
active_count-change_first p f [] = omega arith
active_count-change_first p f (item ∷ items) = elim (Bool-cases (p item)) [
  | inl found ↦ elim (Bool-cases (is_active (f item).status)) [
    | inl active ↦ ground arith
    | inr idle ↦ ground arith
  ]
  | inr other ↦ ground (arith, active_count-change_first p f items)
]

active_count-settle :
    (p : HarnessPlanItem → Bool) (ok : Bool) (detail : String) (items : List HarnessPlanItem)
    → active_count (change_first p (settle_item ok detail) items) ≤ active_count items
unfolding change_first
active_count-settle p ok detail [] = omega arith
active_count-settle p true detail (item ∷ items) = elim (Bool-cases (p item)) [
  | inl found ↦ ground arith
  | inr other ↦ ground (arith, active_count-settle p true detail items)
]
active_count-settle p false detail (item ∷ items) = elim (Bool-cases (p item)) [
  | inl found ↦ ground arith
  | inr other ↦ ground (arith, active_count-settle p false detail items)
]

active_count-start_next :
    (items : List HarnessPlanItem)
    → active_count items ≤ 1
    → active_count (start_next_pending_plan_item items) ≤ 1
unfolding start_next_pending_plan_item
active_count-start_next items h = elim (Bool-cases (any (λ item. is_active item.status) items)) [
  | inl active ↦ ground arith
  | inr idle ↦ ground (
    arith,
    none_active items,
    active_count-change_first (λ item. is_waiting item.status) (set_status ItemStatus.in_progress)
        items,
  )
]

active_count-settle_matching :
    (name : String) (ok : Bool) (detail : String) (items : List HarnessPlanItem)
    → active_count (settle_matching name ok detail items) ≤ active_count items
unfolding settle_matching
active_count-settle_matching name ok detail items = elim (Bool-cases (any (runs_tool name) items)) [
  | inl found ↦ ground (arith, active_count-settle (runs_tool name) ok detail items)
  | inr other ↦ ground (arith, active_count-settle (runs_tool "") ok detail items)
]

abbrev pub IsFocused : AgentLoopHarness → Type 0
IsFocused s = active_count s.plan ≤ 1

start_matching-IsFocused :
    (name : String) (s : AgentLoopHarness)
    → IsFocused s
    → IsFocused (start_matching_plan_item name s)
unfolding start_matching_plan_item
start_matching-IsFocused name s h = elim (Bool-cases (any (matches name) s.plan)) [
  | inl found ↦ ground (arith, active_count-start_item name s.plan)
  | inr other ↦ ground arith
]

follow_call-IsFocused :
    (name fingerprint : String) (s : AgentLoopHarness)
    → IsFocused s
    → IsFocused (follow_call name (count_call fingerprint s))
follow_call-IsFocused name fingerprint s h = elim (Bool-cases (is_runtime s.plan_owner)) [
  | inl runtime ↦ rw runtime (start_matching-IsFocused name (count_call fingerprint s) h)
  | inr model ↦ rw model h
]

before_tool-IsFocused :
    (name fingerprint : String) (s : AgentLoopHarness)
    → IsFocused s
    → IsFocused (before_tool name fingerprint s).1
unfolding before_tool
before_tool-IsFocused name fingerprint s h =
    let followed = follow_call-IsFocused name fingerprint s h in
    let s' = follow_call name (count_call fingerprint s) in
    elim (Bool-cases (elem name s.catalog)) [
      | inl known ↦ elim (Bool-cases (elem name s.promoted)) [
        | inl usable ↦
            elim (Bool-cases
              (is_threshold s'.consecutive_repeat_count s'.repeat_reminder_thresholds)) [
                | inl reminded ↦ rw (known, usable, reminded) followed
                | inr silent ↦ rw (known, usable, silent) followed
              ]
        | inr deferred ↦ rw (known, deferred) h
      ]
      | inr unknown ↦ rw unknown h
    ]

after_tool-IsFocused :
    (name detail : String) (ok : Bool) (s : AgentLoopHarness)
    → IsFocused s
    → IsFocused (after_tool name ok detail s)
unfolding after_tool
after_tool-IsFocused name detail ok s h =
    elim (Bool-cases
      (name == "tools.search" || name == "plan.update" || not (is_runtime s.plan_owner))) [
        | inl ignored ↦ rw ignored h
        | inr followed ↦
            let settled = active_count-settle_matching name ok detail s.plan in
            elim (Bool-cases ok) [
              | inl fine ↦
                  ground (arith, active_count-start_next (settle_matching name ok detail s.plan))
              | inr failed ↦ ground arith
            ]
      ]

-- Neither method around a tool call lets two plan items be in progress, whether the call is allowed or
-- not and whether it succeeds or not.
pub tool_call-IsFocused :
    (s : AgentLoopHarness)
    → IsFocused s
    → (name fingerprint detail : String) (ok : Bool)
    → IsFocused (before_tool name fingerprint s).1 × IsFocused (after_tool name ok detail s)
tool_call-IsFocused s h name fingerprint detail ok =
    (before_tool-IsFocused name fingerprint s h, after_tool-IsFocused name detail ok s h)
