-- ===== src/MarketData/Coverage/Tests.antt =====
-- Ranges and requests at concrete inputs.
use equi_seek.Prelude.{ℕ, ◌≤◌, ◌≡◌, refl, false, not, ◌&&◌, List, [], ◌∷◌, leb, arith}
use equi_seek.MarketData.Coverage.Ranges.{
  DateRange, missing_ranges, gaps_from, merge_ranges, merge_from, sort_ranges, insert_range,
  is_covered, has_day,
}
use equi_seek.MarketData.Coverage.Sorting.{IsSorted, IsValid}
use equi_seek.MarketData.Coverage.Merging.{IsSeparated, merge_ranges_lem}
use equi_seek.MarketData.Coverage.Gaps.{missing_ranges_lem}
use equi_seek.MarketData.Coverage.Table.{
  Series, CoverageRow, coverage, record_coverage, same_series, record_coverage_lem,
}

abbrev range : ℕ → ℕ → DateRange
range a b = record { start = a; end = b }

abbrev known : List DateRange
known = range 10 20 ∷ range 15 25 ∷ range 40 50 ∷ []

merge_runs :
    merge_ranges (range 40 50 ∷ range 10 20 ∷ range 21 25 ∷ []) ≡ range 10 25 ∷ range 40 50 ∷ []
unfolding merge_ranges merge_from sort_ranges insert_range
merge_runs = refl

gaps_run : missing_ranges known 5 60 ≡ range 5 9 ∷ range 26 39 ∷ range 51 60 ∷ []
unfolding missing_ranges gaps_from
gaps_run = refl

merge_ranges_lem_example :
    ((d : ℕ) → is_covered d (merge_ranges known) ≡ is_covered d known)
    × IsSeparated (merge_ranges known)
    × (IsValid known → IsValid (merge_ranges known))
merge_ranges_lem_example = merge_ranges_lem known

known-IsSorted : IsSorted known
known-IsSorted = omega arith

missing_ranges_lem_example :
    ((d : ℕ)
      → is_covered d (missing_ranges known 5 60)
        ≡ (leb 5 d && leb d 60 && not (is_covered d known)))
    × IsValid (missing_ranges known 5 60)
missing_ranges_lem_example = missing_ranges_lem known 5 60 known-IsSorted (omega arith)

abbrev series : Series
series = record { source = "baostock"; symbol = "600000.SH"; adjustment = "qfq" }

abbrev rows : List CoverageRow
rows = record { series = series; range = range 10 20 } ∷ []

record_coverage_lem_example :
    ((start_date end_date d : ℕ)
      → start_date ≤ end_date
      → is_covered d (
          missing_ranges
            (coverage series (record_coverage series (range 18 30) rows))
            start_date
            end_date)
        ≡ (is_covered d (missing_ranges (coverage series rows) start_date end_date)
            && not (has_day d (range 18 30))))
    × ((t : Series)
        → same_series series t ≡ false
        → coverage t (record_coverage series (range 18 30) rows) ≡ coverage t rows)
record_coverage_lem_example = record_coverage_lem series (range 18 30) rows
