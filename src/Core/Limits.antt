-- ===== src/Core/Limits.antt =====
-- When `BudgetManager` of src/aegisrun/tools/budget.py raises in a sequence of calls.
use equi_seek.Prelude.{
  ◌≤◌, String, ◌≡◌, refl, none, List, [], ◌∷◌, arith, ◌↔◌, inl, inr, Option-cases,
}
use equi_seek.Dict.{lookup}
use equi_seek.Core.Domain.{BudgetSnapshot, BudgetUsage, unused}
use equi_seek.Core.Budget.{Consume, consume, consume_all}
use equi_seek.Core.Totals.{
  IsWithin, IsWithin-step, IsWithin-back, within_returns, returns-IsWithin, turns, tools, bytes_of,
  repeats,
}

module _ (s : BudgetSnapshot) where
  consume_all-IsWithin :
      (cs : List Consume) (u : BudgetUsage)
      → IsWithin s u []
      → (consume_all s cs u).0 ≡ none
      → IsWithin s u cs
  unfolding consume_all
  consume_all-IsWithin [] u h e = h
  consume_all-IsWithin (c ∷ cs) u h e = elim (Option-cases (consume s c u).0) [
    | inl fine ↦
        IsWithin-back s c cs u
          (consume_all-IsWithin cs (consume s c u).1 (returns-IsWithin s c u h fine) (ground arith))
    | inr (error, raised) ↦ absurd (ground arith)
  ]

  IsWithin-returns :
      (cs : List Consume) (u : BudgetUsage) → IsWithin s u cs → (consume_all s cs u).0 ≡ none
  unfolding consume_all
  IsWithin-returns [] u h = refl
  IsWithin-returns (c ∷ cs) u h =
      let fine = within_returns s c cs u h in
      let rest = IsWithin-returns cs (consume s c u).1 (IsWithin-step s c cs u h) in ground arith

-- A sequence of calls of a new budget manager raises nothing exactly if the model turns, the tool
-- calls, the bytes of output and the calls of each single action that it asks for in all are within
-- the limits. So no limit is passed unnoticed, and none is enforced early.
pub consume_all_iff :
    (s : BudgetSnapshot) (cs : List Consume)
    → ((consume_all s cs unused).0 ≡ none) ↔ (
        (turns cs ≤ s.max_model_turns)
        × (tools cs ≤ s.max_tool_calls)
        × (bytes_of cs ≤ s.max_output_bytes)
        × ((key : String) → repeats key cs ≤ s.max_repeated_action))
unfolding lookup
consume_all_iff s cs = (
  λ e.
      let h =
        consume_all-IsWithin s cs unused
          (record {
            turns_within = omega arith;
            tools_within = omega arith;
            output_within = omega arith;
            repeats_within = λ key. omega arith;
          })
          e in
      (
        omega (arith, h.turns_within),
        omega (arith, h.tools_within),
        omega (arith, h.output_within),
        λ key. omega (arith, h.repeats_within key),
      ),
  λ (a, b, c, d). IsWithin-returns s cs unused (record {
    turns_within = omega (arith, a);
    tools_within = omega (arith, b);
    output_within = omega (arith, c);
    repeats_within = λ key. omega (arith, d key);
  }),
)
