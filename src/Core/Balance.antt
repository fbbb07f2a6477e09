-- ===== src/Core/Balance.antt =====
-- How often a run is in each status of src/aegisrun/core/domain.py.
use equi_seek.Prelude.{ℕ, ◌+◌, ◌≤◌, ◌≡◌, true, List, [], ◌∷◌, arith}
use equi_seek.Core.Domain.{RunStatus, allowed_transitions, status_in, assert_transition}

-- The statuses of a run that starts queued, the newest first: each step is one that is accepted.
pub data IsRun : List RunStatus → Type 0 where
  starts : IsRun (RunStatus.queued ∷ [])
  steps :
      (s t : RunStatus) (older : List RunStatus)
      → IsRun (s ∷ older)
      → assert_transition s t ≡ true
      → IsRun (t ∷ s ∷ older)

-- how often the run has been queued, running, and stopped: waiting for approval, succeeded or failed
pub record Visits : Type 0 where
  pub queued : ℕ
  pub running : ℕ
  pub stopped : ℕ

abbrev pub count_visit : RunStatus → Visits → Visits
count_visit RunStatus.queued v = record v { queued = v.queued + 1 }
count_visit RunStatus.running v = record v { running = v.running + 1 }
count_visit RunStatus.waiting_approval v = record v { stopped = v.stopped + 1 }
count_visit RunStatus.succeeded v = record v { stopped = v.stopped + 1 }
count_visit RunStatus.failed v = record v { stopped = v.stopped + 1 }
count_visit RunStatus.cancelled v = v

unfoldable pub visits : List RunStatus → Visits
visits [] = record { queued = 0; running = 0; stopped = 0 }
visits (s ∷ older) = count_visit s (visits older)

-- what is left over, by the status that the run is in
abbrev Margin : RunStatus → Visits → Type 0
Margin RunStatus.queued v = (v.running + 1 ≤ v.queued) × (v.stopped ≤ v.running)
Margin RunStatus.running v = (v.running ≤ v.queued) × (v.stopped + 1 ≤ v.running)
Margin s v = (v.running ≤ v.queued) × (v.stopped ≤ v.running)

count_visit-Margin :
    (s t : RunStatus) (v : Visits)
    → assert_transition s t ≡ true
    → Margin s v
    → Margin t (count_visit t v)
unfolding assert_transition allowed_transitions status_in
count_visit-Margin RunStatus.queued RunStatus.running v h (a, b) =
    (omega (arith, a, b), omega (arith, a, b))
count_visit-Margin RunStatus.queued RunStatus.cancelled v h (a, b) =
    (omega (arith, a, b), omega (arith, a, b))
count_visit-Margin RunStatus.queued RunStatus.queued v h m = absurd (cc)
count_visit-Margin RunStatus.queued RunStatus.waiting_approval v h m = absurd (cc)
count_visit-Margin RunStatus.queued RunStatus.succeeded v h m = absurd (cc)
count_visit-Margin RunStatus.queued RunStatus.failed v h m = absurd (cc)
count_visit-Margin RunStatus.running RunStatus.queued v h (a, b) =
    (omega (arith, a, b), omega (arith, a, b))
count_visit-Margin RunStatus.running RunStatus.running v h m = absurd (cc)
count_visit-Margin RunStatus.running RunStatus.waiting_approval v h (a, b) =
    (omega (arith, a, b), omega (arith, a, b))
count_visit-Margin RunStatus.running RunStatus.succeeded v h (a, b) =
    (omega (arith, a, b), omega (arith, a, b))
count_visit-Margin RunStatus.running RunStatus.failed v h (a, b) =
    (omega (arith, a, b), omega (arith, a, b))
count_visit-Margin RunStatus.running RunStatus.cancelled v h (a, b) =
    (omega (arith, a, b), omega (arith, a, b))
count_visit-Margin RunStatus.waiting_approval RunStatus.queued v h (a, b) =
    (omega (arith, a, b), omega (arith, a, b))
count_visit-Margin RunStatus.waiting_approval RunStatus.cancelled v h (a, b) =
    (omega (arith, a, b), omega (arith, a, b))
count_visit-Margin RunStatus.waiting_approval RunStatus.running v h m = absurd (cc)
count_visit-Margin RunStatus.waiting_approval RunStatus.waiting_approval v h m = absurd (cc)
count_visit-Margin RunStatus.waiting_approval RunStatus.succeeded v h m = absurd (cc)
count_visit-Margin RunStatus.waiting_approval RunStatus.failed v h m = absurd (cc)
count_visit-Margin RunStatus.succeeded t v h m = absurd (cc)
count_visit-Margin RunStatus.failed t v h m = absurd (cc)
count_visit-Margin RunStatus.cancelled t v h m = absurd (cc)

-- the status that the run is in
abbrev LastMargin : List RunStatus → Type 0
LastMargin [] = Unit
LastMargin (s ∷ older) = Margin s (visits (s ∷ older))

IsRun-LastMargin : (run : List RunStatus) → IsRun run → LastMargin run
unfolding visits
IsRun-LastMargin run IsRun.starts = (omega arith, omega arith)
IsRun-LastMargin run (IsRun.steps s t older before step) =
    count_visit-Margin s t (visits (s ∷ older)) step (IsRun-LastMargin (s ∷ older) before)

bounds_of :
    (s : RunStatus) (v : Visits) → Margin s v → (v.running ≤ v.queued) × (v.stopped ≤ v.running)
bounds_of RunStatus.queued v (a, b) = (omega (arith, a), b)
bounds_of RunStatus.running v (a, b) = (a, omega (arith, b))
bounds_of RunStatus.waiting_approval v m = m
bounds_of RunStatus.succeeded v m = m
bounds_of RunStatus.failed v m = m
bounds_of RunStatus.cancelled v m = m

last_bounds :
    (run : List RunStatus)
    → IsRun run
    → LastMargin run
    → ((visits run).running ≤ (visits run).queued) × ((visits run).stopped ≤ (visits run).running)
unfolding visits
last_bounds (s ∷ older) r m = bounds_of s (visits (s ∷ older)) m
last_bounds [] r m = (omega arith, omega arith)

-- In a run that starts queued and takes accepted steps only, the run has been queued at least as often as
-- it was running, and running at least as often as it waited for approval, succeeded or failed together.
pub IsRun-bounds :
    (run : List RunStatus)
    → IsRun run
    → ((visits run).running ≤ (visits run).queued) × ((visits run).stopped ≤ (visits run).running)
IsRun-bounds run r = last_bounds run r (IsRun-LastMargin run r)
