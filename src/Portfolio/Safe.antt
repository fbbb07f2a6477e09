-- ===== src/Portfolio/Safe.antt =====
-- What src/aegisrun/portfolio/strategy_dsl.py promises of a strategy that it accepts.
use equi_seek.Prelude.{ℕ, ◌≤◌, String, ◌≡◌, true, false, ◌&&◌, arith, Option, none, some}
use equi_seek.Data.Json.{Value, Fields}
use equi_seek.Portfolio.Floats.{Floats}
use equi_seek.Portfolio.Symbols.{Letters}
use equi_seek.Portfolio.Fields.{ok, demand, bounded_float, checked_float}
use equi_seek.Portfolio.Strategy.{
  CandidateFilters, CandidateRanking, CandidateStrategy, is_weighted, safe_actions, directions,
  filters_of, ranking_of, from_dict,
}
use equi_seek.Portfolio.Lists.{
  Holds, bind-Holds, demand-Holds, returned, IsTextList, string_list-IsTextList, Between,
  bounded_int-Between, IsSomeOf, is_some_of_lem,
}

pub record IsSafeFilter (f : CandidateFilters) : Type 0 where
  pub confidence_bounded : f.min_confidence ≤ 100
  pub score_bounded : f.min_candidate_score ≤ 100
  pub actions_safe : IsSomeOf f.allowed_actions safe_actions
  pub directions_known : IsSomeOf f.allowed_directions directions
  pub included_bounded : IsTextList f.include_industries
  pub excluded_bounded : IsTextList f.exclude_industries

filters_of-IsSafeFilter :
    (L : Letters) (payload : Fields) → Holds IsSafeFilter (filters_of L payload)
unfolding filters_of
filters_of-IsSafeFilter L payload = demand-Holds IsSafeFilter _ _ _ (λ known.
    bind-Holds IsSafeFilter _ _ (λ gate e. bind-Holds IsSafeFilter _ _ (λ actions e_actions.
      demand-Holds IsSafeFilter _ _ _ (λ safe. bind-Holds IsSafeFilter _ _ (λ ways e_ways.
        demand-Holds IsSafeFilter _ _ _ (λ known_ways.
          bind-Holds IsSafeFilter _ _ (λ values e_values.
            bind-Holds IsSafeFilter _ _ (λ symbols e_symbols.
              bind-Holds IsSafeFilter _ _ (λ confidence e_confidence.
                bind-Holds IsSafeFilter _ _ (λ score e_score.
                  bind-Holds IsSafeFilter _ _ (λ included e_included.
                    bind-Holds IsSafeFilter _ _ (λ excluded e_excluded. record {
                      confidence_bounded =
                          (returned (Between 0 100) _ confidence e_confidence
                            (bounded_int-Between _ _ 0 100)).1;
                      score_bounded =
                          (returned (Between 0 100) _ score e_score
                            (bounded_int-Between _ _ 0 100)).1;
                      actions_safe = is_some_of_lem actions safe_actions safe;
                      directions_known = is_some_of_lem ways directions known_ways;
                      included_bounded =
                          returned IsTextList _ included e_included (string_list-IsTextList _ _);
                      excluded_bounded =
                          returned IsTextList _ excluded e_excluded (string_list-IsTextList _ _);
                    }))))))))))))

module _ (F : Floats) where
  open F use {Number, of_int, of_bits, number, le, plus}

  abbrev pub InRange : ℕ → ℕ → Number → Type 0
  InRange minimum maximum x = (le (number minimum) x ≡ true) × (le x (number maximum) ≡ true)

  within-InRange :
      (x : Number) (name : String) (minimum maximum : ℕ)
      → Holds
          (InRange minimum maximum)
          (demand (le (number minimum) x && le x (number maximum)) name (ok x))
  within-InRange x name minimum maximum =
      demand-Holds (InRange minimum maximum) _ name (ok x) (λ good. (ground arith, ground arith))

  checked_float-InRange :
      (x : Option Number) (name : String) (minimum maximum : ℕ)
      → Holds (InRange minimum maximum) (checked_float F x name minimum maximum)
  checked_float-InRange none name minimum maximum = tt
  checked_float-InRange (some x) name minimum maximum = within-InRange x name minimum maximum

  bounded_float-InRange :
      (v : Value) (name : String) (minimum maximum : ℕ)
      → Holds (InRange minimum maximum) (bounded_float F v name minimum maximum)
  unfolding bounded_float
  bounded_float-InRange (Value.int negative n) name minimum maximum =
      checked_float-InRange (of_int negative n) name minimum maximum
  bounded_float-InRange (Value.float bits) name minimum maximum =
      within-InRange (of_bits bits) name minimum maximum
  bounded_float-InRange v name minimum maximum = tt

  pub record IsSafeRanking (r : CandidateRanking Number) : Type 0 where
    pub confidence_weight : InRange 0 10 r.confidence_weight
    pub candidate_score_weight : InRange 0 10 r.candidate_score_weight
    pub market_adjustment_weight : InRange 0 5 r.market_adjustment_weight
    pub macro_adjustment_weight : InRange 0 5 r.macro_adjustment_weight
    pub preferred_bounded : IsTextList r.preferred_industries
    pub preferred_industry_bonus : InRange 0 30 r.preferred_industry_bonus
    pub positive_weight :
        is_weighted r.mode ≡ true
        → le (plus r.confidence_weight r.candidate_score_weight) (number 0) ≡ false

  ranking_of-IsSafeRanking : (payload : Fields) → Holds IsSafeRanking (ranking_of F payload)
  unfolding ranking_of
  ranking_of-IsSafeRanking payload = demand-Holds IsSafeRanking _ _ _ (λ known.
      bind-Holds IsSafeRanking _ _ (λ mode e_mode.
        bind-Holds IsSafeRanking _ _ (λ confidence e_confidence.
          bind-Holds IsSafeRanking _ _ (λ candidate e_candidate.
            demand-Holds IsSafeRanking _ _ _ (λ positive.
              bind-Holds IsSafeRanking _ _ (λ market e_market.
                bind-Holds IsSafeRanking _ _ (λ macro e_macro.
                  bind-Holds IsSafeRanking _ _ (λ preferred e_preferred.
                    bind-Holds IsSafeRanking _ _ (λ bonus e_bonus. record {
                      confidence_weight =
                          returned (InRange 0 10) _ confidence e_confidence
                            (bounded_float-InRange _ _ 0 10);
                      candidate_score_weight =
                          returned (InRange 0 10) _ candidate e_candidate
                            (bounded_float-InRange _ _ 0 10);
                      market_adjustment_weight =
                          returned (InRange 0 5) _ market e_market (bounded_float-InRange _ _ 0 5);
                      macro_adjustment_weight =
                          returned (InRange 0 5) _ macro e_macro (bounded_float-InRange _ _ 0 5);
                      preferred_bounded =
                          returned IsTextList _ preferred e_preferred (string_list-IsTextList _ _);
                      preferred_industry_bonus =
                          returned (InRange 0 30) _ bonus e_bonus (bounded_float-InRange _ _ 0 30);
                      positive_weight = λ weighted. ground arith;
                    })))))))))

  pub record IsSafe (s : CandidateStrategy Number) : Type 0 where
    pub filters_safe : IsSafeFilter s.filters
    pub ranking_safe : IsSafeRanking s.ranking
    pub results_bounded : Between 1 50 s.max_results

  from_dict-Holds : (L : Letters) (payload : Fields) → Holds IsSafe (from_dict F L payload)
  unfolding from_dict
  from_dict-Holds L payload = demand-Holds IsSafe _ _ _ (λ known.
      bind-Holds IsSafe _ _ (λ version e_version. demand-Holds IsSafe _ _ _ (λ supported.
        bind-Holds IsSafe _ _ (λ name e_name. bind-Holds IsSafe _ _ (λ filter_payload e_filter.
          bind-Holds IsSafe _ _ (λ filters e_filters.
            bind-Holds IsSafe _ _ (λ ranking_payload e_payload.
              bind-Holds IsSafe _ _ (λ ranking e_ranking.
                bind-Holds IsSafe _ _ (λ results e_results. record {
                  filters_safe =
                      returned IsSafeFilter _ filters e_filters
                        (filters_of-IsSafeFilter L filter_payload);
                  ranking_safe =
                      returned IsSafeRanking _ ranking e_ranking
                        (ranking_of-IsSafeRanking ranking_payload);
                  results_bounded =
                      returned (Between 1 50) _ results e_results (bounded_int-Between _ _ 1 50);
                })))))))))

  -- A strategy that `from_dict` accepts only admits the actions buy, add, hold and wait and known
  -- directions, at least one of each; its thresholds are at most 100, it asks for 1 to 50 results, its
  -- lists have at most a hundred distinct texts, every weight is in its range, and the base weight of
  -- a weighted ranking is not zero or less.
  pub from_dict-IsSafe :
      (L : Letters) (payload : Fields) (s : CandidateStrategy Number)
      → from_dict F L payload ≡ ok s
      → IsSafe s
  from_dict-IsSafe L payload s h =
      returned IsSafe (from_dict F L payload) s h (from_dict-Holds L payload)
