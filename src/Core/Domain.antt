-- ===== src/Core/Domain.antt =====
-- `RunStatus`, `ALLOWED_TRANSITIONS`, `assert_transition`, `BudgetSnapshot` and `BudgetUsage` of
-- src/aegisrun/core/domain.py.
use equi_seek.Prelude.{ℕ, Bool, true, false, ◌||◌, List, [], ◌∷◌}
use equi_seek.Dict.{Dict}

pub data RunStatus : Type 0 where
  queued : RunStatus
  running : RunStatus
  waiting_approval : RunStatus
  succeeded : RunStatus
  failed : RunStatus
  cancelled : RunStatus

-- `RunStatus.terminal`
abbrev pub terminal : RunStatus → Bool
terminal RunStatus.succeeded = true
terminal RunStatus.failed = true
terminal RunStatus.cancelled = true
terminal _ = false

abbrev pub same_status : RunStatus → RunStatus → Bool
same_status RunStatus.queued RunStatus.queued = true
same_status RunStatus.running RunStatus.running = true
same_status RunStatus.waiting_approval RunStatus.waiting_approval = true
same_status RunStatus.succeeded RunStatus.succeeded = true
same_status RunStatus.failed RunStatus.failed = true
same_status RunStatus.cancelled RunStatus.cancelled = true
same_status _ _ = false

-- `ALLOWED_TRANSITIONS`
unfoldable pub allowed_transitions : RunStatus → List RunStatus
allowed_transitions RunStatus.queued = RunStatus.running ∷ RunStatus.cancelled ∷ []
allowed_transitions RunStatus.running =
    RunStatus.queued ∷ RunStatus.waiting_approval ∷ RunStatus.succeeded ∷ RunStatus.failed
    ∷ RunStatus.cancelled ∷ []
allowed_transitions RunStatus.waiting_approval = RunStatus.queued ∷ RunStatus.cancelled ∷ []
allowed_transitions RunStatus.succeeded = []
allowed_transitions RunStatus.failed = []
allowed_transitions RunStatus.cancelled = []

unfoldable pub status_in : RunStatus → List RunStatus → Bool
status_in s [] = false
status_in s (t ∷ ts) = same_status t s || status_in s ts

-- `assert_transition`: whether it returns
unfoldable pub assert_transition : (current target : RunStatus) → Bool
assert_transition current target = status_in target (allowed_transitions current)

pub record BudgetSnapshot : Type 0 where
  pub max_model_turns : ℕ
  pub max_tool_calls : ℕ
  pub max_output_bytes : ℕ
  pub max_wall_seconds : ℕ
  pub max_repeated_action : ℕ

-- the defaults of `BudgetSnapshot`
abbrev pub default_snapshot : BudgetSnapshot
default_snapshot = record {
  max_model_turns = 12;
  max_tool_calls = 20;
  max_output_bytes = 64000;
  max_wall_seconds = 300;
  max_repeated_action = 3;
}

pub record BudgetUsage : Type 0 where
  pub model_turns : ℕ
  pub tool_calls : ℕ
  pub output_bytes : ℕ
  pub repeated_actions : Dict ℕ

-- the defaults of `BudgetUsage`
abbrev pub unused : BudgetUsage
unused = record { model_turns = 0; tool_calls = 0; output_bytes = 0; repeated_actions = [] }
