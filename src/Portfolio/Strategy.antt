-- ===== src/Portfolio/Strategy.antt =====
-- `CandidateFilters`, `CandidateRanking`, `CandidateStrategy.from_dict` and
-- `candidate_strategy_from_skill` of src/aegisrun/portfolio/strategy_dsl.py. A frozen set is a list.
use equi_seek.Prelude.{
  ℕ, String, ◌==◌, Bool, true, false, not, ◌&&◌, Option, none, some, List, [], ◌∷◌, elem, all,
  if◌then◌else◌,
}
use equi_seek.Dict.{Dict, lookup}
use equi_seek.Data.Json.{Value, Fields, Items}
use equi_seek.Portfolio.Floats.{Floats}
use equi_seek.Portfolio.Symbols.{Letters, canonical_symbol}
use equi_seek.Portfolio.Fields.{
  Checked, ok, invalid, crashed, ◌>>=◌, demand, get_or, all_known, mapping, required_string,
  string_list, bounded_int, bounded_float,
}

abbrev pub schema_version : String
schema_version = "aegisrun-candidate-strategy/v1"

abbrev pub safe_actions : List String
safe_actions = "buy" ∷ "add" ∷ "hold" ∷ "wait" ∷ []

abbrev pub directions : List String
directions = "bullish" ∷ "bearish" ∷ "range" ∷ "insufficient" ∷ []

pub record CandidateFilters : Type 0 where
  pub min_confidence : ℕ
  pub min_candidate_score : ℕ
  pub allowed_actions : List String
  pub allowed_directions : List String
  pub require_buy_gate_open : Bool
  pub include_industries : List String
  pub exclude_industries : List String
  pub exclude_symbols : List String

pub data RankingMode : Type 0 where
  legacy : RankingMode
  weighted : RankingMode

abbrev pub is_weighted : RankingMode → Bool
is_weighted RankingMode.legacy = false
is_weighted RankingMode.weighted = true

pub record CandidateRanking (Number : Type 0) : Type 0 where
  pub mode : RankingMode
  pub confidence_weight : Number
  pub candidate_score_weight : Number
  pub market_adjustment_weight : Number
  pub macro_adjustment_weight : Number
  pub preferred_industries : List String
  pub preferred_industry_bonus : Number

pub record CandidateStrategy (Number : Type 0) : Type 0 where
  pub name : String
  pub filters : CandidateFilters
  pub ranking : CandidateRanking Number
  pub max_results : ℕ

abbrev pub filter_fields : List String
filter_fields =
    "min_confidence" ∷ "min_candidate_score" ∷ "allowed_actions" ∷ "allowed_directions"
    ∷ "require_buy_gate_open" ∷ "include_industries" ∷ "exclude_industries" ∷ "exclude_symbols" ∷ []

abbrev pub ranking_fields : List String
ranking_fields =
    "mode" ∷ "confidence_weight" ∷ "candidate_score_weight" ∷ "market_adjustment_weight"
    ∷ "macro_adjustment_weight" ∷ "preferred_industries" ∷ "preferred_industry_bonus" ∷ []

abbrev pub strategy_fields : List String
strategy_fields = "schema_version" ∷ "name" ∷ "filters" ∷ "ranking" ∷ "max_results" ∷ []

abbrev texts : List String → Items
texts [] = Items.nil
texts (t ∷ ts) = Items.cons (Value.str t) (texts ts)

abbrev no_texts : Value
no_texts = Value.arr Items.nil

abbrev zero_value : Value
zero_value = Value.int false 0

abbrev one_value : Value
one_value = Value.int false 1

-- `isinstance(value, bool)`
unfoldable pub bool_field : Value → String → Checked Bool
bool_field (Value.bool b) name = ok b
bool_field _ name = invalid name

abbrev pub is_some_of : List String → List String → Bool
is_some_of [] allowed = false
is_some_of (x ∷ xs) allowed = all (λ t. elem t allowed) (x ∷ xs)

abbrev add_text : String → List String → List String
add_text t ts = if elem t ts then ts else t ∷ ts

-- the set of symbols, with the loop that fills it
unfoldable pub symbols_from : Letters → List String → List String → Checked (List String)
symbols_from L [] symbols = ok symbols
symbols_from L (value ∷ values) symbols = elim (canonical_symbol L value) [
  | none ↦ invalid "exclude_symbols"
  | some symbol ↦ symbols_from L values (add_text symbol symbols)
]

unfoldable pub filters_of : Letters → Fields → Checked CandidateFilters
filters_of L payload = demand (all_known payload filter_fields) "filters" (
    bool_field (get_or "require_buy_gate_open" (Value.bool false) payload) "require_buy_gate_open"
    >>= λ gate.
        string_list
          (get_or "allowed_actions" (Value.arr (texts ("add" ∷ "buy" ∷ "hold" ∷ "wait" ∷ [])))
            payload)
          "allowed_actions"
        >>= λ actions. demand (is_some_of actions safe_actions) "allowed_actions" (
            string_list
              (get_or "allowed_directions"
                (Value.arr (texts ("bullish" ∷ "bearish" ∷ "range" ∷ []))) payload)
              "allowed_directions"
            >>= λ ways. demand (is_some_of ways directions) "allowed_directions" (
                string_list (get_or "exclude_symbols" no_texts payload) "exclude_symbols"
                >>= λ values. symbols_from L values [] >>= λ symbols.
                    bounded_int (get_or "min_confidence" zero_value payload) "min_confidence" 0 100
                    >>= λ confidence.
                        bounded_int (get_or "min_candidate_score" zero_value payload)
                          "min_candidate_score" 0 100
                        >>= λ score.
                            string_list (get_or "include_industries" no_texts payload)
                              "include_industries"
                            >>= λ included.
                                string_list (get_or "exclude_industries" no_texts payload)
                                  "exclude_industries"
                                >>= λ excluded. ok (record {
                                  min_confidence = confidence;
                                  min_candidate_score = score;
                                  allowed_actions = actions;
                                  allowed_directions = ways;
                                  require_buy_gate_open = gate;
                                  include_industries = included;
                                  exclude_industries = excluded;
                                  exclude_symbols = symbols;
                                }))))

-- `mode not in {"legacy", "weighted"}`: a list or a dict cannot be looked up in a set
unfoldable pub mode_of : Value → Checked RankingMode
mode_of (Value.str s) =
    if s == "legacy"
    then ok RankingMode.legacy
    else if s == "weighted"
    then ok RankingMode.weighted
    else invalid "ranking.mode"
mode_of (Value.arr items) = crashed "TypeError"
mode_of (Value.obj fields) = crashed "TypeError"
mode_of _ = invalid "ranking.mode"

module _ (F : Floats) where
  open F use {Number, number, le, plus}

  unfoldable pub ranking_of : Fields → Checked (CandidateRanking Number)
  ranking_of payload = demand (all_known payload ranking_fields) "ranking" (
      mode_of (get_or "mode" (Value.str "legacy") payload) >>= λ mode.
      bounded_float F (get_or "confidence_weight" one_value payload) "confidence_weight" 0 10
      >>= λ confidence.
          bounded_float F (get_or "candidate_score_weight" one_value payload)
            "candidate_score_weight" 0 10
          >>= λ candidate.
              demand (not (is_weighted mode && le (plus confidence candidate) (number 0))) "ranking"
                (bounded_float F (get_or "market_adjustment_weight" zero_value payload)
                    "market_adjustment_weight" 0 5
                  >>= λ market.
                      bounded_float F (get_or "macro_adjustment_weight" zero_value payload)
                        "macro_adjustment_weight" 0 5
                      >>= λ macro.
                          string_list (get_or "preferred_industries" no_texts payload)
                            "preferred_industries"
                          >>= λ preferred.
                              bounded_float F (get_or "preferred_industry_bonus" zero_value payload)
                                "preferred_industry_bonus" 0 30
                              >>= λ bonus. ok (record {
                                mode = mode;
                                confidence_weight = confidence;
                                candidate_score_weight = candidate;
                                market_adjustment_weight = market;
                                macro_adjustment_weight = macro;
                                preferred_industries = preferred;
                                preferred_industry_bonus = bonus;
                              })))

  unfoldable pub from_dict : Letters → Fields → Checked (CandidateStrategy Number)
  from_dict L payload = demand (all_known payload strategy_fields) "strategy" (
      required_string payload "schema_version" 80 >>= λ version.
      demand (version == schema_version) "schema_version" (
        required_string payload "name" 100 >>= λ name.
        mapping (get_or "filters" (Value.obj Fields.end) payload) "filters" >>= λ filter_payload.
        filters_of L filter_payload >>= λ filters.
        mapping (get_or "ranking" (Value.obj Fields.end) payload) "ranking" >>= λ ranking_payload.
        ranking_of ranking_payload >>= λ ranking.
        bounded_int (get_or "max_results" (Value.int false 50) payload) "max_results" 1 50
        >>= λ results.
            ok (record {
              name = name;
              filters = filters;
              ranking = ranking;
              max_results = results;
            })))

  abbrev strategy_of : Letters → Value → Checked (CandidateStrategy Number)
  strategy_of L (Value.obj payload) = from_dict L payload
  strategy_of L _ = invalid "strategy"

  -- `candidate_strategy_from_skill`; `loads` is `json.loads`, and `none` its `JSONDecodeError`
  unfoldable pub candidate_strategy_from_skill :
      Letters → (loads : String → Option Value) → Dict String → Checked (CandidateStrategy Number)
  candidate_strategy_from_skill L loads resources = elim (lookup "strategy.json" resources) [
    | none ↦ invalid "strategy.json"
    | some content ↦ elim (loads content) [
      | none ↦ invalid "strategy.json"
      | some raw ↦ strategy_of L raw
    ]
  ]
