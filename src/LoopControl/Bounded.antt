-- ===== src/LoopControl/Bounded.antt =====
-- What src/aegisrun/harness/loop_control.py accepts as a plan of the model.
use Prim.Native.Char.{Char}
use equi_seek.Prelude.{
  if◌then◌else◌, ℕ, ◌+◌, ◌-◌, ◌≤◌, String, ◌==◌, ◌≡◌, refl, Bool, true, false, List, [], ◌∷◌,
  length, elem, arith, nat_eq,
}
use equi_seek.Data.Json.{Value, Fields}
use equi_seek.Data.Text.{prefix, text_length}
use equi_seek.Harness.Checked.{ok, Holds, bind-Holds, demand-Holds, Holds-ok}
use equi_seek.Harness.Store.Json.{get}
use equi_seek.LoopControl.State.{HarnessPlanItem, PlanOwner, AgentLoopHarness}
use equi_seek.LoopControl.Plan.{active_count}
use equi_seek.LoopControl.Replace.{
  text_or, item_of, read_status, read_item, read_items, with_plan, replace_plan,
}

text_length-cut :
    (b : Bool) (n : ℕ) (c : Char) (rest : String)
    → (b ≡ false → 1 + text_length rest ≤ n)
    → text_length (if b then "" else String.◌∷◌ c rest) ≤ n
unfolding text_length
text_length-cut true n c rest h = omega arith
text_length-cut false n c rest h = h refl

room : (n m : ℕ) → m ≤ n - 1 → nat_eq n 0 ≡ false → 1 + m ≤ n
room n m h e = ground arith

text_length-prefix : (n : ℕ) (s : String) → text_length (prefix n s) ≤ n
unfolding text_length prefix
text_length-prefix n String.[] = omega arith
text_length-prefix n (String.◌∷◌ c s) =
    text_length-cut (nat_eq n 0) n c (prefix (n - 1) s)
      (room n (text_length (prefix (n - 1) s)) (text_length-prefix (n - 1) s))

-- a title, and each text within its bound
pub record IsBounded (item : HarnessPlanItem) : Type 0 where
  pub id_bounded : text_length item.id ≤ 64
  pub title_given : (item.title == "") ≡ false
  pub title_bounded : text_length item.title ≤ 160
  pub tool_bounded : text_length item.tool ≤ 96
  pub detail_bounded : text_length item.detail ≤ 500

-- the items are bounded, and no id stands twice or in the list
abbrev pub AllBounded : List String → List HarnessPlanItem → Type 0
AllBounded seen [] = Unit
AllBounded seen (item ∷ items) =
    IsBounded item × (elem item.id seen ≡ false) × AllBounded (item.id ∷ seen) items

pub record IsPlan (count : ℕ) (items : List HarnessPlanItem) : Type 0 where
  pub counted : length items ≡ count
  pub not_empty : 1 ≤ count
  pub at_most_eight : count ≤ 8
  pub bounded : AllBounded [] items
  pub focused : active_count items ≤ 1

module _ (str : Value → String) (decimal : ℕ → String) where
  read_item-IsBounded :
      (index : ℕ) (seen : List String) (raw : Fields)
      → Holds
          (λ item. IsBounded item × (elem item.id seen ≡ false))
          (read_item str decimal index seen raw)
  unfolding read_item
  read_item-IsBounded index seen raw = demand-Holds _ _ _ _ _ (λ titled.
      demand-Holds _ _ _ _ _ (λ fresh.
        bind-Holds (λ item. IsBounded item × (elem item.id seen ≡ false))
          (read_status (text_or str decimal "pending" (get "status" raw)))
          (λ status. ok (item_of str decimal index raw status))
          (λ status e. (
            record {
              id_bounded = text_length-prefix 64 _;
              title_given = ground arith;
              title_bounded = text_length-prefix 160 _;
              tool_bounded = text_length-prefix 96 _;
              detail_bounded = text_length-prefix 500 _;
            },
            ground arith,
          ))))

  read_items-AllBounded :
      (index : ℕ) (seen : List String) (raws : List Fields)
      → Holds
          (λ items. (length items ≡ length raws) × AllBounded seen items)
          (read_items str decimal index seen raws)
  unfolding read_items
  read_items-AllBounded index seen [] = (refl, tt)
  read_items-AllBounded index seen (raw ∷ raws) =
      bind-Holds (λ items. (length items ≡ length (raw ∷ raws)) × AllBounded seen items)
        (read_item str decimal index seen raw) _
        (λ item e.
          bind-Holds (λ items. (length items ≡ length (raw ∷ raws)) × AllBounded seen items)
            (read_items str decimal (index + 1) (item.id ∷ seen) raws) (λ items. ok (item ∷ items))
            (λ items e'.
              let one = Holds-ok _ _ item e (read_item-IsBounded index seen raw) in
              let more =
                Holds-ok _ _ items e' (read_items-AllBounded (index + 1) (item.id ∷ seen) raws) in
              (omega (arith, more.0), (one.0, one.1, more.1))))

  replace_plan-IsPlan :
      (raws : List Fields) (s : AgentLoopHarness)
      → Holds
          (λ s'. IsPlan (length raws) s'.plan × (s' ≡ with_plan str decimal s'.plan s))
          (replace_plan str decimal raws s)
  unfolding replace_plan
  replace_plan-IsPlan raws s = demand-Holds _ _ _ _ _ (λ sized.
      bind-Holds (λ s'. IsPlan (length raws) s'.plan × (s' ≡ with_plan str decimal s'.plan s))
        (read_items str decimal 1 [] raws) _
        (λ items e.
          demand-Holds (λ s'. IsPlan (length raws) s'.plan × (s' ≡ with_plan str decimal s'.plan s))
            _ _ _ (ok (with_plan str decimal items s))
            (λ focused.
              let read = Holds-ok _ _ items e (read_items-AllBounded 1 [] raws) in
              (
                record {
                  counted = read.0;
                  not_empty = ground arith;
                  at_most_eight = ground arith;
                  bounded = read.1;
                  focused = ground arith;
                },
                refl,
              ))))

  -- A plan that replace_plan accepts has as many items as were sent, between 1 and 8, with ids that differ,
  -- titles that are not empty, texts within their bounds and at most one item in progress; of the harness
  -- only the plan, its owner and its revision change.
  pub replace_plan_lem :
      (raws : List Fields) (s s' : AgentLoopHarness)
      → replace_plan str decimal raws s ≡ ok s'
      → IsPlan (length raws) s'.plan
        × (s' ≡ record s {
          plan = s'.plan;
          plan_owner = PlanOwner.model;
          plan_revision = s.plan_revision + 1;
        })
  replace_plan_lem raws s s' e =
      Holds-ok _ (replace_plan str decimal raws s) s' e (replace_plan-IsPlan raws s)
