-- ===== src/Core/Budget.antt =====
-- `BudgetManager` of src/aegisrun/tools/budget.py. A method gives the exception that it raises, if
-- any, and the usage that it leaves: what is counted before the raise stays counted.
use equi_seek.Prelude.{ℕ, ◌+◌, String, Option, none, some, List, [], ◌∷◌, ltb, if◌then◌else◌}
use equi_seek.Dict.{lookup, insert}
use equi_seek.Core.Domain.{BudgetSnapshot, BudgetUsage}

-- `BudgetExceededError`, by the budget that it names
pub data BudgetExceeded : Type 0 where
  model_turns_exhausted : BudgetExceeded
  tool_calls_exhausted : BudgetExceeded
  output_exhausted : BudgetExceeded
  repeated_limit : BudgetExceeded

-- `repeated_actions.get(key, 0)`
abbrev pub or_zero : Option ℕ → ℕ
or_zero none = 0
or_zero (some n) = n

abbrev pub repeats_of : String → BudgetUsage → ℕ
repeats_of key u = or_zero (lookup key u.repeated_actions)

abbrev pub count_turn : BudgetUsage → BudgetUsage
count_turn u = record u { model_turns = u.model_turns + 1 }

abbrev pub count_output : ℕ → BudgetUsage → BudgetUsage
count_output bytes u = record u { output_bytes = u.output_bytes + bytes }

abbrev pub count_tool : String → ℕ → BudgetUsage → BudgetUsage
count_tool key bytes u = record u {
  tool_calls = u.tool_calls + 1;
  output_bytes = u.output_bytes + bytes;
  repeated_actions = insert key (repeats_of key u + 1) u.repeated_actions;
}

unfoldable pub consume_model_turn :
    BudgetSnapshot → BudgetUsage → Option BudgetExceeded × BudgetUsage
consume_model_turn s u =
    let u' = count_turn u in
    (
      (if ltb s.max_model_turns u'.model_turns
          then some BudgetExceeded.model_turns_exhausted
          else none),
      u',
    )

unfoldable pub consume_tool_call :
    BudgetSnapshot
    → (action_key : String) → (output_bytes : ℕ) → BudgetUsage
    → Option BudgetExceeded × BudgetUsage
consume_tool_call s key bytes u =
    let u' = count_tool key bytes u in
    (
      (if ltb s.max_tool_calls u'.tool_calls
          then some BudgetExceeded.tool_calls_exhausted
          else if ltb s.max_output_bytes u'.output_bytes
          then some BudgetExceeded.output_exhausted
          else if ltb s.max_repeated_action (repeats_of key u + 1)
          then some BudgetExceeded.repeated_limit
          else none),
      u',
    )

unfoldable pub consume_output :
    BudgetSnapshot → ℕ → BudgetUsage → Option BudgetExceeded × BudgetUsage
consume_output s bytes u =
    let u' = count_output bytes u in
    (
      (if ltb s.max_output_bytes u'.output_bytes
          then some BudgetExceeded.output_exhausted
          else none),
      u',
    )

-- the calls of the manager's methods
pub data Consume : Type 0 where
  turn : Consume
  tool : String → ℕ → Consume
  output : ℕ → Consume

unfoldable pub consume :
    BudgetSnapshot → Consume → BudgetUsage → Option BudgetExceeded × BudgetUsage
consume s Consume.turn u = consume_model_turn s u
consume s (Consume.tool key bytes) u = consume_tool_call s key bytes u
consume s (Consume.output bytes) u = consume_output s bytes u

-- a client makes the calls in order and stops at the first exception
unfoldable pub consume_all :
    BudgetSnapshot → List Consume → BudgetUsage → Option BudgetExceeded × BudgetUsage
consume_all s [] u = (none, u)
consume_all s (c ∷ cs) u =
    let rest = consume_all s cs (consume s c u).1 in
    elim (consume s c u).0 [ none ↦ rest | some error ↦ (some error, (consume s c u).1) ]
