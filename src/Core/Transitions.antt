-- ===== src/Core/Transitions.antt =====
-- The runs that `assert_transition` of src/aegisrun/core/domain.py lets happen.
use equi_seek.Prelude.{◌≡◌, refl, true, false, subst, arith}
use equi_seek.Core.Domain.{RunStatus, terminal, allowed_transitions, status_in, assert_transition}

-- A status and the one that a run of accepted transitions leads to.
pub data Leads : RunStatus → RunStatus → Type 0 where
  stay : (s : RunStatus) → Leads s s
  go : {s t u : RunStatus} → Leads s t → assert_transition t u ≡ true → Leads s u

last_of : (s t : RunStatus) → assert_transition s t ≡ true → terminal s ≡ false
unfolding assert_transition status_in allowed_transitions
last_of RunStatus.succeeded t h = cc
last_of RunStatus.failed t h = cc
last_of RunStatus.cancelled t h = cc
last_of _ t h = refl

-- A run that has ended keeps its status: no accepted transitions lead from a terminal status to
-- another one.
pub Leads-from_terminal : {s t : RunStatus} → Leads s t → terminal s ≡ true → s ≡ t
Leads-from_terminal (stay s) h = refl
Leads-from_terminal (go {s = s} {t = t} {u = u} path step) h =
    let same = Leads-from_terminal path h in
    let ended : terminal t ≡ true = subst (λ x. terminal x ≡ true) same h in
    absurd (ground (arith, last_of t u step))
