-- ===== src/Portfolio/Admitted.antt =====
-- Which candidates a strategy of src/aegisrun/portfolio/strategy_dsl.py lets through.
use equi_seek.Prelude.{String, ◌≤◌, ◌≡◌, true, false, some, elem, inl, inr, Option-cases, arith}
use equi_seek.Data.Json.{Fields}
use equi_seek.Portfolio.Floats.{Floats}
use equi_seek.Portfolio.Symbols.{Letters, canonical_symbol}
use equi_seek.Portfolio.Fields.{ok}
use equi_seek.Portfolio.Strategy.{
  CandidateFilters, CandidateStrategy, safe_actions, directions, from_dict,
}
use equi_seek.Portfolio.Screen.{Candidate, allows, industry_matches, is_listed, is_open}
use equi_seek.Portfolio.Safe.{from_dict-IsSafe}

-- what a candidate meets that the filters let through
pub record IsAdmitted (L : Letters) (f : CandidateFilters) (c : Candidate) : Type 0 where
  pub symbol : String
  pub canonical : canonical_symbol L c.symbol ≡ some symbol
  pub not_excluded : elem symbol f.exclude_symbols ≡ false
  pub action : elem c.action f.allowed_actions ≡ true
  pub direction : elem c.direction f.allowed_directions ≡ true
  pub confident : f.min_confidence ≤ c.confidence
  pub scored : f.min_candidate_score ≤ c.candidate_score
  pub gate : f.require_buy_gate_open ≡ true → is_open c.buy_gate_open ≡ true
  pub included :
      is_listed L f.include_industries ≡ true
      → industry_matches L c.industry f.include_industries ≡ true
  pub industry_kept : industry_matches L c.industry f.exclude_industries ≡ false

admitted :
    (L : Letters) (f : CandidateFilters) (c : Candidate)
    → allows L f c ≡ some true
    → IsAdmitted L f c
unfolding allows
admitted L f c h = elim (Option-cases (canonical_symbol L c.symbol)) [
  | inl none_found ↦ absurd (ground arith)
  | inr (symbol, found) ↦ record {
    symbol = symbol;
    canonical = found;
    not_excluded = ground arith;
    action = ground arith;
    direction = ground arith;
    confident = ground arith;
    scored = ground arith;
    gate = λ required. ground arith;
    included = λ listed. ground arith;
    industry_kept = ground arith;
  }
]

-- A candidate that an accepted strategy lets through is to be bought, added to, held or waited for,
-- in a known direction; it meets the thresholds of the strategy, the required gate is open, and its
-- symbol and industry are not excluded and are included where the strategy lists industries.
pub allows-IsAdmitted :
    (F : Floats) (L : Letters) (payload : Fields) (s : CandidateStrategy F.Number) (c : Candidate)
    → from_dict F L payload ≡ ok s
    → allows L s.filters c ≡ some true
    → (elem c.action safe_actions ≡ true)
      × (elem c.direction directions ≡ true)
      × IsAdmitted L s.filters c
allows-IsAdmitted F L payload s c accepted h =
    let safe = from_dict-IsSafe F L payload s accepted in
    let a = admitted L s.filters c h in
    (
      safe.filters_safe.actions_safe.listed c.action a.action,
      safe.filters_safe.directions_known.listed c.direction a.direction,
      a,
    )
