-- ===== src/Core/Totals.antt =====
-- What `BudgetManager` of src/aegisrun/tools/budget.py promises: a budget is used up exactly when the
-- calls ask for more than it allows.
use equi_seek.Prelude.{
  ℕ, ◌+◌, ◌≤◌, String, ◌==◌, eq_iff, ◌≡◌, none, List, [], ◌∷◌, if◌then◌else◌, arith,
}
use equi_seek.Dict.{lookup-insert}
use equi_seek.Core.Domain.{BudgetSnapshot, BudgetUsage}
use equi_seek.Core.Budget.{
  Consume, consume, consume_model_turn, consume_tool_call, consume_output, count_tool, repeats_of,
}

abbrev pub turns : List Consume → ℕ
turns [] = 0
turns (Consume.turn ∷ cs) = 1 + turns cs
turns (c ∷ cs) = turns cs

abbrev pub tools : List Consume → ℕ
tools [] = 0
tools (Consume.tool key bytes ∷ cs) = 1 + tools cs
tools (c ∷ cs) = tools cs

abbrev pub bytes_of : List Consume → ℕ
bytes_of [] = 0
bytes_of (Consume.tool key bytes ∷ cs) = bytes + bytes_of cs
bytes_of (Consume.output bytes ∷ cs) = bytes + bytes_of cs
bytes_of (Consume.turn ∷ cs) = bytes_of cs

abbrev pub repeats : String → List Consume → ℕ
repeats k [] = 0
repeats k (Consume.tool key bytes ∷ cs) = (if key == k then 1 else 0) + repeats k cs
repeats k (c ∷ cs) = repeats k cs

-- the usage, with what is still asked for, is within the budget
pub record IsWithin (s : BudgetSnapshot) (u : BudgetUsage) (cs : List Consume) : Type 0 where
  pub turns_within : u.model_turns + turns cs ≤ s.max_model_turns
  pub tools_within : u.tool_calls + tools cs ≤ s.max_tool_calls
  pub output_within : u.output_bytes + bytes_of cs ≤ s.max_output_bytes
  pub repeats_within : (key : String) → repeats_of key u + repeats key cs ≤ s.max_repeated_action

module _ (s : BudgetSnapshot) where
  repeats-count_tool :
      (key k : String) (bytes : ℕ) (u : BudgetUsage)
      → repeats_of k (count_tool key bytes u) ≡ repeats_of k u + (if key == k then 1 else 0)
  repeats-count_tool key k bytes u =
      ground (arith, lookup-insert key k (repeats_of key u + 1) u.repeated_actions, eq_iff key k)

  -- one call less to come, and its use counted
  pub IsWithin-step :
      (c : Consume) (cs : List Consume) (u : BudgetUsage)
      → IsWithin s u (c ∷ cs)
      → IsWithin s (consume s c u).1 cs
  unfolding consume consume_model_turn consume_tool_call consume_output
  IsWithin-step Consume.turn cs u h = record {
    turns_within = omega (arith, h.turns_within);
    tools_within = h.tools_within;
    output_within = h.output_within;
    repeats_within = h.repeats_within;
  }
  IsWithin-step (Consume.output bytes) cs u h = record {
    turns_within = h.turns_within;
    tools_within = h.tools_within;
    output_within = omega (arith, h.output_within);
    repeats_within = h.repeats_within;
  }
  IsWithin-step (Consume.tool key bytes) cs u h = record {
    turns_within = h.turns_within;
    tools_within = omega (arith, h.tools_within);
    output_within = omega (arith, h.output_within);
    repeats_within = λ k. omega (arith, h.repeats_within k, repeats-count_tool key k bytes u);
  }

  pub IsWithin-back :
      (c : Consume) (cs : List Consume) (u : BudgetUsage)
      → IsWithin s (consume s c u).1 cs
      → IsWithin s u (c ∷ cs)
  unfolding consume consume_model_turn consume_tool_call consume_output
  IsWithin-back Consume.turn cs u h = record {
    turns_within = omega (arith, h.turns_within);
    tools_within = h.tools_within;
    output_within = h.output_within;
    repeats_within = h.repeats_within;
  }
  IsWithin-back (Consume.output bytes) cs u h = record {
    turns_within = h.turns_within;
    tools_within = h.tools_within;
    output_within = omega (arith, h.output_within);
    repeats_within = h.repeats_within;
  }
  IsWithin-back (Consume.tool key bytes) cs u h = record {
    turns_within = h.turns_within;
    tools_within = omega (arith, h.tools_within);
    output_within = omega (arith, h.output_within);
    repeats_within = λ k. omega (arith, h.repeats_within k, repeats-count_tool key k bytes u);
  }

  pub within_returns :
      (c : Consume) (cs : List Consume) (u : BudgetUsage)
      → IsWithin s u (c ∷ cs)
      → (consume s c u).0 ≡ none
  unfolding consume consume_model_turn consume_tool_call consume_output
  within_returns Consume.turn cs u h = ground (arith, h.turns_within)
  within_returns (Consume.output bytes) cs u h = ground (arith, h.output_within)
  within_returns (Consume.tool key bytes) cs u h =
      ground (arith, h.tools_within, h.output_within, h.repeats_within key, eq_iff key key)

  pub returns-IsWithin :
      (c : Consume) (u : BudgetUsage)
      → IsWithin s u []
      → (consume s c u).0 ≡ none
      → IsWithin s (consume s c u).1 []
  unfolding consume consume_model_turn consume_tool_call consume_output
  returns-IsWithin Consume.turn u h e = record {
    turns_within = ground arith;
    tools_within = h.tools_within;
    output_within = h.output_within;
    repeats_within = h.repeats_within;
  }
  returns-IsWithin (Consume.output bytes) u h e = record {
    turns_within = h.turns_within;
    tools_within = h.tools_within;
    output_within = ground arith;
    repeats_within = h.repeats_within;
  }
  returns-IsWithin (Consume.tool key bytes) u h e = record {
    turns_within = h.turns_within;
    tools_within = ground arith;
    output_within = ground arith;
    repeats_within =
        λ k. ground (arith, h.repeats_within k, repeats-count_tool key k bytes u, eq_iff key k);
  }
