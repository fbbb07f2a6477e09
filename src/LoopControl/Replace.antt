-- ===== src/LoopControl/Replace.antt =====
-- `replace_plan` of src/aegisrun/harness/loop_control.py: a plan that the model sends.
use Prim.Native.Char.{code}
use Prim.Native.String.{◌++◌}
use equi_seek.Prelude.{
  ℕ, ◌+◌, String, ◌==◌, Bool, true, false, not, ◌&&◌, ◌||◌, Option, none, some, List, [], ◌∷◌,
  length, elem, leb, nat_eq, if◌then◌else◌,
}
use equi_seek.Data.Json.{Value, Fields, Items}
use equi_seek.Data.Text.{is_space, lstrip, prefix, starts_with}
use equi_seek.Harness.Checked.{Checked, ok, violated, demand, ◌>>=◌}
use equi_seek.Harness.Store.Json.{get}
use equi_seek.LoopControl.State.{ItemStatus, HarnessPlanItem, PlanOwner, AgentLoopHarness}
use equi_seek.LoopControl.Plan.{active_count}

-- each run of spaces as one blank, and none at the end
unfoldable pub squeeze : String → String
squeeze String.[] = ""
squeeze (String.◌∷◌ c s) =
    let rest = squeeze s in
    if is_space (code c)
    then (if rest == "" || starts_with rest " " then rest else " " ++ rest)
    else String.◌∷◌ c rest

-- `" ".join(s.split())`
unfoldable pub joined_words : String → String
joined_words s = lstrip (squeeze s)

-- whether `value or other` is the value
abbrev pub is_true : Value → Bool
is_true (Value.str s) = not (s == "")
is_true (Value.obj Fields.end) = false
is_true (Value.obj (Fields.field k v rest)) = true
is_true (Value.arr Items.nil) = false
is_true (Value.arr (Items.cons v rest)) = true
is_true (Value.int negative n) = not (nat_eq n 0)
is_true (Value.float bits) = not (nat_eq bits 0 || nat_eq bits 9223372036854775808)
is_true (Value.bool b) = b
is_true Value.null = false

-- `_PLAN_STATUSES`, with the status that each text names
unfoldable pub read_status : String → Checked ItemStatus
read_status s =
    if s == "pending"
    then ok ItemStatus.pending
    else if s == "in_progress"
    then ok ItemStatus.in_progress
    else if s == "completed"
    then ok ItemStatus.completed
    else if s == "blocked"
    then ok ItemStatus.blocked
    else if s == "skipped"
    then ok ItemStatus.skipped
    else violated "ValueError" "unknown plan item status"

module _ (str : Value → String) (decimal : ℕ → String) where
  -- `str(raw.get(key, default))`
  abbrev pub text_or : String → Option Value → String
  text_or other none = other
  text_or other (some v) = str v

  -- `str(raw.get("id") or f"task-{index}")`
  abbrev pub id_or : ℕ → Option Value → String
  id_or index none = "task-" ++ decimal index
  id_or index (some v) = if is_true v then str v else "task-" ++ decimal index

  abbrev pub item_of : ℕ → Fields → ItemStatus → HarnessPlanItem
  item_of index raw status = record {
    id = prefix 64 (id_or index (get "id" raw));
    title = prefix 160 (joined_words (text_or "" (get "title" raw)));
    status = status;
    tool = prefix 96 (text_or "" (get "tool" raw));
    detail = prefix 500 (text_or "" (get "detail" raw));
  }

  -- an item that is not the first to have its id is refused
  unfoldable pub read_item : ℕ → (seen : List String) → Fields → Checked HarnessPlanItem
  read_item index seen raw =
      let item = item_of index raw ItemStatus.pending in
      demand (not (item.title == "")) "ValueError" "each plan item requires a title" (
        demand (not (elem item.id seen)) "ValueError" "duplicate plan item id" (
          read_status (text_or "pending" (get "status" raw)) >>= λ status.
          ok (item_of index raw status)))

  unfoldable pub read_items :
      ℕ → (seen : List String) → List Fields → Checked (List HarnessPlanItem)
  read_items index seen [] = ok []
  read_items index seen (raw ∷ raws) = read_item index seen raw >>= λ item.
      read_items (index + 1) (item.id ∷ seen) raws >>= λ items. ok (item ∷ items)

  abbrev pub with_plan : List HarnessPlanItem → AgentLoopHarness → AgentLoopHarness
  with_plan items s = record s {
    plan = items;
    plan_owner = PlanOwner.model;
    plan_revision = s.plan_revision + 1;
  }

  unfoldable pub replace_plan : List Fields → AgentLoopHarness → Checked AgentLoopHarness
  replace_plan raws s =
      demand (leb 1 (length raws) && leb (length raws) 8) "ValueError"
        "plan must contain between 1 and 8 items"
        (read_items 1 [] raws >>= λ items.
          demand (leb (active_count items) 1) "ValueError"
            "at most one plan item may be in_progress" (ok (with_plan items s)))
