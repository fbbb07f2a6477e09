-- ===== src/LoopControl/State.antt =====
-- The state of `AgentLoopHarness` in src/aegisrun/harness/loop_control.py and its methods around a
-- tool call. The fingerprint of a call is a digest, and so an argument here.
use equi_seek.Prelude.{
  ℕ, ◌+◌, String, ◌==◌, Bool, true, false, not, ◌&&◌, ◌||◌, List, [], ◌∷◌, elem, any, nat_eq,
  if◌then◌else◌,
}
use equi_seek.Data.Text.{prefix}

pub data ItemStatus : Type 0 where
  pending : ItemStatus
  in_progress : ItemStatus
  completed : ItemStatus
  blocked : ItemStatus
  skipped : ItemStatus

pub record HarnessPlanItem : Type 0 where
  pub id : String
  pub title : String
  pub status : ItemStatus
  pub tool : String
  pub detail : String

pub data PlanOwner : Type 0 where
  runtime : PlanOwner
  model : PlanOwner

-- the decision of the guard, by its code
pub data ToolCallGuardDecision : Type 0 where
  unknown_tool : ToolCallGuardDecision
  deferred_tool : ToolCallGuardDecision
  repeated_tool_call_reminder : ToolCallGuardDecision
  allowed : ToolCallGuardDecision

-- the names of `_catalog`; the thresholds are the sorted ones
pub record AgentLoopHarness : Type 0 where
  pub repeat_reminder_thresholds : List ℕ
  pub catalog : List String
  pub promoted : List String
  pub last_call_fingerprint : String
  pub consecutive_repeat_count : ℕ
  pub repeat_reminders : ℕ
  pub guard_violations : ℕ
  pub plan_revision : ℕ
  pub plan_owner : PlanOwner
  pub plan : List HarnessPlanItem

abbrev pub is_active : ItemStatus → Bool
is_active ItemStatus.in_progress = true
is_active _ = false

abbrev pub is_waiting : ItemStatus → Bool
is_waiting ItemStatus.pending = true
is_waiting _ = false

abbrev pub is_runtime : PlanOwner → Bool
is_runtime PlanOwner.runtime = true
is_runtime PlanOwner.model = false

-- `promote`: whether the name is newly promoted
unfoldable pub promote : String → AgentLoopHarness → Bool × AgentLoopHarness
promote name s =
    if not (elem name s.catalog)
    then (false, s)
    else if elem name s.promoted
    then (false, s)
    else (true, record s { promoted = name ∷ s.promoted })

abbrev pub set_status : ItemStatus → HarnessPlanItem → HarnessPlanItem
set_status status item = record item { status = status }

-- an active item waits again
abbrev pub pause : HarnessPlanItem → HarnessPlanItem
pause item = if is_active item.status then set_status ItemStatus.pending item else item

unfoldable pub pause_all : List HarnessPlanItem → List HarnessPlanItem
pause_all [] = []
pause_all (item ∷ items) = pause item ∷ pause_all items

-- the item that `next` finds gets the change
unfoldable pub change_first :
    (HarnessPlanItem → Bool)
    → (HarnessPlanItem → HarnessPlanItem)
    → List HarnessPlanItem
    → List HarnessPlanItem
change_first p f [] = []
change_first p f (item ∷ items) =
    let rest = change_first p f items in if p item then f item ∷ items else item ∷ rest

abbrev pub matches : String → HarnessPlanItem → Bool
matches name item = item.tool == name && is_waiting item.status

-- the matching item starts and every active one waits again
unfoldable pub start_item : String → List HarnessPlanItem → List HarnessPlanItem
start_item name [] = []
start_item name (item ∷ items) =
    let rest = start_item name items in
    if matches name item
    then set_status ItemStatus.in_progress item ∷ pause_all items
    else pause item ∷ rest

unfoldable pub start_matching_plan_item : String → AgentLoopHarness → AgentLoopHarness
start_matching_plan_item name s =
    if any (matches name) s.plan
    then record s { plan = start_item name s.plan; plan_revision = s.plan_revision + 1 }
    else s

unfoldable pub start_next_pending_plan_item : List HarnessPlanItem → List HarnessPlanItem
start_next_pending_plan_item plan =
    if any (λ item. is_active item.status) plan
    then plan
    else change_first (λ item. is_waiting item.status) (set_status ItemStatus.in_progress) plan

-- whether the number is one of the thresholds
unfoldable pub is_threshold : ℕ → List ℕ → Bool
is_threshold n [] = false
is_threshold n (t ∷ ts) = nat_eq t n || is_threshold n ts

abbrev pub next_count : String → AgentLoopHarness → ℕ
next_count fingerprint s =
    if fingerprint == s.last_call_fingerprint then s.consecutive_repeat_count + 1 else 1

abbrev pub count_call : String → AgentLoopHarness → AgentLoopHarness
count_call fingerprint s = record s {
  last_call_fingerprint = fingerprint;
  consecutive_repeat_count = next_count fingerprint s;
}

abbrev pub follow_call : String → AgentLoopHarness → AgentLoopHarness
follow_call name s = if is_runtime s.plan_owner then start_matching_plan_item name s else s

abbrev pub violate : AgentLoopHarness → AgentLoopHarness
violate s = record s { guard_violations = s.guard_violations + 1 }

unfoldable pub before_tool :
    String → (fingerprint : String) → AgentLoopHarness → ToolCallGuardDecision × AgentLoopHarness
before_tool name fingerprint s =
    if not (elem name s.catalog)
    then (ToolCallGuardDecision.unknown_tool, violate s)
    else if not (elem name s.promoted)
    then (ToolCallGuardDecision.deferred_tool, violate s)
    else (let s' = follow_call name (count_call fingerprint s) in
        if is_threshold s'.consecutive_repeat_count s'.repeat_reminder_thresholds
        then (
          ToolCallGuardDecision.repeated_tool_call_reminder,
          record s' { repeat_reminders = s'.repeat_reminders + 1 },
        )
        else (ToolCallGuardDecision.allowed, s'))

abbrev pub settle_item : Bool → String → HarnessPlanItem → HarnessPlanItem
settle_item ok detail item = record item {
  status = if ok then ItemStatus.completed else ItemStatus.blocked;
  detail = prefix 500 detail;
}

abbrev pub runs_tool : String → HarnessPlanItem → Bool
runs_tool name item = item.tool == name && is_active item.status

-- the active item of the tool is settled, or the active one without a tool
unfoldable pub settle_matching :
    String → Bool → String → List HarnessPlanItem → List HarnessPlanItem
settle_matching name ok detail plan =
    if any (runs_tool name) plan
    then change_first (runs_tool name) (settle_item ok detail) plan
    else change_first (runs_tool "") (settle_item ok detail) plan

unfoldable pub after_tool : String → Bool → String → AgentLoopHarness → AgentLoopHarness
after_tool name ok detail s =
    if name == "tools.search" || name == "plan.update" || not (is_runtime s.plan_owner)
    then s
    else (let settled = settle_matching name ok detail s.plan in
        record s {
          plan = if ok then start_next_pending_plan_item settled else settled;
          plan_revision = s.plan_revision + 1;
        })
