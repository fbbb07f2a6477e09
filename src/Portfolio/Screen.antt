-- ===== src/Portfolio/Screen.antt =====
-- `CandidateStrategy.allows` and `score` of src/aegisrun/portfolio/strategy_dsl.py.
use mathlib.Core.Option
use equi_seek.Prelude.{
  ℕ, String, ◌==◌, Bool, true, false, not, ◌&&◌, ◌||◌, Option, none, some, List, [], ◌∷◌, elem, ltb,
  if◌then◌else◌,
}
use equi_seek.Data.Text.{strip, has_text}
use equi_seek.Portfolio.Floats.{Floats}
use equi_seek.Portfolio.Symbols.{Letters, canonical_symbol}
use equi_seek.Portfolio.Strategy.{CandidateFilters, CandidateRanking, is_weighted}

-- the candidate that is screened; the gate is `None`, closed or open
pub record Candidate : Type 0 where
  pub symbol : String
  pub industry : String
  pub action : String
  pub direction : String
  pub confidence : ℕ
  pub candidate_score : ℕ
  pub buy_gate_open : Option Bool

abbrev pub is_open : Option Bool → Bool
is_open (some true) = true
is_open _ = false

module _ (L : Letters) where
  open L use {casefold}

  -- one of the patterns that are not blank is in the text
  unfoldable pub any_pattern : String → List String → Bool
  any_pattern normalized [] = false
  any_pattern normalized (pattern ∷ patterns) =
      (not (strip pattern == "") && has_text normalized (casefold pattern))
      || any_pattern normalized patterns

  unfoldable pub industry_matches : String → List String → Bool
  industry_matches industry patterns =
      let normalized = casefold (strip industry) in
      not (normalized == "") && any_pattern normalized patterns

  abbrev pub is_listed : List String → Bool
  is_listed [] = false
  is_listed (x ∷ xs) = true

  -- `none` stands for the `ValueError` of a symbol that is none
  unfoldable pub allows : CandidateFilters → Candidate → Option Bool
  allows filters c = elim (canonical_symbol L c.symbol) [
    | none ↦ none
    | some symbol ↦ some (
        if elem symbol filters.exclude_symbols
        then false
        else if not (elem c.action filters.allowed_actions)
            || not (elem c.direction filters.allowed_directions)
        then false
        else if ltb c.confidence filters.min_confidence
            || ltb c.candidate_score filters.min_candidate_score
        then false
        else if filters.require_buy_gate_open && not (is_open c.buy_gate_open)
        then false
        else if is_listed filters.include_industries
            && not (industry_matches c.industry filters.include_industries)
        then false
        else not (industry_matches c.industry filters.exclude_industries))
  ]

module _ (F : Floats) where
  open F use {Number, number, lt, plus, times, over, round}

  -- `max(0.0, min(100.0, score))`
  abbrev pub clamp : Number → Number
  clamp score =
      let low = if lt score (number 100) then score else number 100 in
      if lt (number 0) low then low else number 0

  -- the sum, with its bonus, is cut and rounded
  abbrev pub adjusted_score :
      Letters
      → CandidateRanking Number
      → (industry : String) → (market_adjustment macro_adjustment base : Number) → Number
  adjusted_score L ranking industry market macro base =
      let adjusted =
        plus (plus base (times market ranking.market_adjustment_weight))
          (times macro ranking.macro_adjustment_weight) in
      let preferred =
        if industry_matches L industry ranking.preferred_industries
        then plus adjusted ranking.preferred_industry_bonus
        else adjusted in
      round (clamp preferred)

  abbrev pub base_of :
      CandidateRanking Number → (confidence candidate_score : Number) → Option Number
  base_of ranking confidence candidate_score =
      over
        (plus (times confidence ranking.confidence_weight)
          (times candidate_score ranking.candidate_score_weight))
        (plus ranking.confidence_weight ranking.candidate_score_weight)

  -- The numbers of the candidate are converted where they meet a weight; `none` stands for
  -- `ZeroDivisionError`.
  unfoldable pub score :
      Letters
      → CandidateRanking Number
      → (industry : String)
      → (confidence candidate_score market_adjustment macro_adjustment : Number) → Option Number
  score L ranking industry confidence candidate_score market macro =
      if not (is_weighted ranking.mode)
      then some confidence
      else Option.map (adjusted_score L ranking industry market macro)
          (base_of ranking confidence candidate_score)
