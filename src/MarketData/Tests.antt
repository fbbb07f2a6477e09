-- ===== src/MarketData/Tests.antt =====
-- A small dataset in the cache.
use equi_seek.Prelude.{
  ℕ, ◌≡◌, refl, Bool, false, ◌&&◌, some, none, [], ◌∷◌, leb, if◌then◌else◌, arith,
}
use equi_seek.MarketData.Coverage.Ranges.{
  DateRange, missing_ranges, merge_ranges, merge_from, sort_ranges, insert_range,
}
use equi_seek.MarketData.Coverage.Table.{
  Series, coverage, record_coverage, without_series, rows_for, ranges_of,
}
use equi_seek.MarketData.Prices.{
  PriceBar, MarketDataSet, Database, store_dataset, load_bars, clear_series, bar_on, last_on,
  stored_on, upsert_all, upsert, store_dataset-load_bars, clear_series_lem,
}

abbrev series : Series
series = record { source = "baostock"; symbol = "600000.SH"; adjustment = "qfq" }

abbrev bar : ℕ → ℕ → PriceBar ℕ
bar d v = record { trade_date = d; values = v }

abbrev dataset : MarketDataSet ℕ
dataset = record { series = series; is_synthetic = false; bars = bar 11 7 ∷ bar 10 5 ∷ [] }

abbrev week : DateRange
week = record { start = 10; end = 14 }

abbrev empty : Database ℕ
empty = record { price_rows = []; coverage_rows = [] }

abbrev stored : Database ℕ
stored = record {
  price_rows =
      record { series = series; bar = bar 11 7 } ∷ record { series = series; bar = bar 10 5 } ∷ [];
  coverage_rows = record { series = series; range = week } ∷ [];
}

store_runs : store_dataset dataset week empty ≡ some stored
unfolding store_dataset upsert_all upsert record_coverage without_series rows_for merge_ranges
    merge_from sort_ranges insert_range ranges_of
store_runs = refl

store_dataset-load_bars_example :
    (◌≡◌ {A = Bool} false false)
    × ((a b d : ℕ)
        → bar_on d (load_bars series a b stored)
          ≡ (if leb a d && leb d b then last_on d dataset.bars (stored_on series d []) else none))
store_dataset-load_bars_example = store_dataset-load_bars dataset week empty stored store_runs

clear_series_lem_example :
    (load_bars series 1 9 (clear_series series stored) ≡ [])
    × (missing_ranges (coverage series (clear_series series stored).coverage_rows) 1 9
        ≡ record { start = 1; end = 9 } ∷ [])
clear_series_lem_example = clear_series_lem series stored 1 9 (omega arith)
