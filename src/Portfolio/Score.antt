-- ===== src/Portfolio/Score.antt =====
-- The bounds of `score` in src/aegisrun/portfolio/strategy_dsl.py.
use equi_seek.Prelude.{ℕ, String, ◌≡◌, refl, true, false, some, inl, inr, Bool-cases, subst}
use equi_seek.Data.Json.{Fields}
use equi_seek.Portfolio.Fields.{ok}
use equi_seek.Portfolio.Floats.{Floats}
use equi_seek.Portfolio.Symbols.{Letters}
use equi_seek.Portfolio.Strategy.{CandidateRanking, CandidateStrategy, is_weighted, from_dict}
use equi_seek.Portfolio.Screen.{score, clamp, adjusted_score}
use equi_seek.Portfolio.Safe.{InRange, from_dict-IsSafe}

-- What the code relies on of `float`: 0 and 100 are in order, `<` implies `<=`, rounding to four
-- digits keeps the order and keeps 0 and 100, and only a divisor that is zero or less may be refused.
pub record FloatLaws (F : Floats) : Type 0 where
  pub le_refl : (n : ℕ) → F.le (F.number n) (F.number n) ≡ true
  pub zero_le_hundred : F.le (F.number 0) (F.number 100) ≡ true
  pub lt_le : (x y : F.Number) → F.lt x y ≡ true → F.le x y ≡ true
  pub round_le : (x y : F.Number) → F.le x y ≡ true → F.le (F.round x) (F.round y) ≡ true
  pub round_zero : F.round (F.number 0) ≡ F.number 0
  pub round_hundred : F.round (F.number 100) ≡ F.number 100
  pub over_some :
      (x y : F.Number) → F.le y (F.number 0) ≡ false → (z : F.Number) × (F.over x y ≡ some z)

module _ (F : Floats) (laws : FloatLaws F) where
  open F use {Number, number, le, lt, round, plus, times}
  open laws use {le_refl, zero_le_hundred, lt_le, round_le, round_zero, round_hundred, over_some}

  clamp-InRange : (x : Number) → InRange F 0 100 (clamp F x)
  clamp-InRange x = elim (Bool-cases (lt x (number 100))) [
    | inl below ↦ elim (Bool-cases (lt (number 0) x)) [
      | inl above ↦ rw (below, above) (lt_le (number 0) x above, lt_le x (number 100) below)
      | inr not_above ↦ rw (below, not_above) (le_refl 0, zero_le_hundred)
    ]
    | inr not_below ↦ elim (Bool-cases (lt (number 0) (number 100))) [
      | inl above ↦ rw (not_below, above) (zero_le_hundred, le_refl 100)
      | inr not_above ↦ rw (not_below, not_above) (le_refl 0, zero_le_hundred)
    ]
  ]

  adjusted_score-InRange :
      (L : Letters) (r : CandidateRanking Number) (industry : String) (market macro base : Number)
      → InRange F 0 100 (adjusted_score F L r industry market macro base)
  adjusted_score-InRange L r industry market macro base =
      let rounded : (x : Number) → InRange F 0 100 (round (clamp F x)) = λ x.
        let (low, high) = clamp-InRange x in
        (
          subst (λ z. le z (round (clamp F x)) ≡ true) round_zero
              (round_le (number 0) (clamp F x) low),
          subst (λ z. le (round (clamp F x)) z ≡ true) round_hundred
              (round_le (clamp F x) (number 100) high),
        ) in
      rounded _

  -- An accepted strategy with a weighted ranking gives each candidate a score, between 0 and 100 and without
  -- a division by zero, for all numbers of the candidate and the adjustments that are floats.
  pub score-InRange :
      (L : Letters) (payload : Fields) (s : CandidateStrategy Number)
      → from_dict F L payload ≡ ok s
      → is_weighted s.ranking.mode ≡ true
      → (industry : String) (confidence candidate market macro : Number)
      → (x : Number) × (score F L s.ranking industry confidence candidate market macro ≡ some x)
        × InRange F 0 100 x
  unfolding score
  score-InRange L payload s accepted weighted industry confidence candidate market macro =
      let safe = from_dict-IsSafe F L payload s accepted in
      let (base, divided) =
        over_some
          (plus (times confidence s.ranking.confidence_weight)
            (times candidate s.ranking.candidate_score_weight))
          (plus s.ranking.confidence_weight s.ranking.candidate_score_weight)
          (safe.ranking_safe.positive_weight weighted) in
      (
        adjusted_score F L s.ranking industry market macro base,
        rw (weighted, divided) refl,
        adjusted_score-InRange L s.ranking industry market macro base,
      )
