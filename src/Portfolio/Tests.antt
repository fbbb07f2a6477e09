-- ===== src/Portfolio/Tests.antt =====
-- A strategy of two fields, a candidate that it lets through, and the theorems at them.
use equi_seek.Prelude.{
  ℕ, ◌+◌, ◌*◌, ◌==◌, ◌≡◌, refl, true, false, none, some, [], ◌∷◌, elem, all, leb, ltb,
  if◌then◌else◌, arith,
}
use equi_seek.Data.Json.{Value, Fields, Items}
use equi_seek.Data.Text.{
  strip, text_length, starts_with, ends_with, has_text, prefix, split_dot, keep,
}
use equi_seek.Portfolio.Floats.{Floats}
use equi_seek.Portfolio.Symbols.{
  Letters, canonical_symbol, normalize_stock_code, display_stock_code,
}
use equi_seek.Portfolio.Fields.{
  ok, invalid, crashed, ◌>>=◌, demand, get, all_known, mapping, required_string, strings_from,
  string_list, item_count, bounded_int, bounded_float,
}
use equi_seek.Portfolio.Strategy.{
  CandidateRanking, CandidateStrategy, RankingMode, safe_actions, directions, bool_field,
  symbols_from, filters_of, mode_of, ranking_of, from_dict,
}
use equi_seek.Portfolio.Screen.{Candidate, allows, score, industry_matches, any_pattern}
use equi_seek.Portfolio.Safe.{IsSafe, InRange, from_dict-IsSafe}
use equi_seek.Portfolio.Score.{FloatLaws, score-InRange}
use equi_seek.Portfolio.Admitted.{IsAdmitted, allows-IsAdmitted}

-- whole numbers in place of floats
abbrev whole : Floats
whole = record {
  Number = ℕ;
  of_int = λ negative n. some n;
  of_bits = λ bits. bits;
  number = λ n. n;
  le = leb;
  lt = ltb;
  plus = λ a b. a + b;
  times = λ a b. a * b;
  over = λ a b. if leb b 0 then none else some a;
  round = λ x. x;
}

abbrev letters : Letters
letters = record {
  lower = λ s. s;
  upper = λ s. if s == "sh" then "SH" else s;
  casefold = λ s. s;
  is_digit = λ c. leb 48 c;
}

abbrev payload : Fields
payload = Fields.field "schema_version" (Value.str "aegisrun-candidate-strategy/v1") (
    Fields.field "name" (Value.str " mine ") (
      Fields.field "ranking" (Value.obj (Fields.field "mode" (Value.str "weighted") Fields.end))
        Fields.end))

abbrev ranking : CandidateRanking ℕ
ranking = record {
  mode = RankingMode.weighted;
  confidence_weight = 1;
  candidate_score_weight = 1;
  market_adjustment_weight = 0;
  macro_adjustment_weight = 0;
  preferred_industries = [];
  preferred_industry_bonus = 0;
}

abbrev strategy : CandidateStrategy ℕ
strategy = record {
  name = "mine";
  filters = record {
    min_confidence = 0;
    min_candidate_score = 0;
    allowed_actions = "add" ∷ "buy" ∷ "hold" ∷ "wait" ∷ [];
    allowed_directions = "bullish" ∷ "bearish" ∷ "range" ∷ [];
    require_buy_gate_open = false;
    include_industries = [];
    exclude_industries = [];
    exclude_symbols = [];
  };
  ranking = ranking;
  max_results = 50;
}

-- opens what the tests below run
program : Unit {0}
unfolding from_dict filters_of ranking_of mode_of bool_field symbols_from bounded_int bounded_float
    string_list strings_from item_count required_string mapping all_known get demand ◌>>=◌ strip
    text_length elem all allows industry_matches any_pattern canonical_symbol normalize_stock_code
    display_stock_code starts_with ends_with prefix split_dot keep has_text
program = tt

accepted : from_dict whole letters payload ≡ ok strategy
unfolding program
accepted = refl

selling_refused :
    filters_of letters (
      Fields.field "allowed_actions"
        (Value.arr (Items.cons (Value.str "sell") Items.nil))
        Fields.end)
    ≡ invalid "allowed_actions"
unfolding program
selling_refused = refl

list_as_mode :
    ranking_of whole (Fields.field "mode" (Value.arr Items.nil) Fields.end) ≡ crashed "TypeError"
unfolding program
list_as_mode = refl

from_dict-IsSafe_example : IsSafe whole strategy
from_dict-IsSafe_example = from_dict-IsSafe whole letters payload strategy accepted

abbrev candidate : Candidate
candidate = record {
  symbol = "600519.SH";
  industry = "drinks";
  action = "buy";
  direction = "bullish";
  confidence = 70;
  candidate_score = 60;
  buy_gate_open = none;
}

lets_through : allows letters strategy.filters candidate ≡ some true
unfolding program
lets_through = refl

allows-IsAdmitted_example :
    (elem "buy" safe_actions ≡ true)
    × (elem "bullish" directions ≡ true)
    × IsAdmitted letters strategy.filters candidate
allows-IsAdmitted_example =
    allows-IsAdmitted whole letters payload strategy candidate accepted lets_through

laws : FloatLaws whole
laws = record {
  le_refl = λ n. ground arith;
  zero_le_hundred = refl;
  lt_le = λ x y h. ground arith;
  round_le = λ x y h. h;
  round_zero = refl;
  round_hundred = refl;
  over_some = λ x y h. (x, rw h refl);
}

score-InRange_example :
    (x : ℕ) × (score whole letters strategy.ranking "drinks" 70 60 0 0 ≡ some x)
    × InRange whole 0 100 x
score-InRange_example =
    score-InRange whole laws letters payload strategy accepted refl "drinks" 70 60 0 0
