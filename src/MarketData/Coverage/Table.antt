-- ===== src/MarketData/Coverage/Table.antt =====
-- The table of covered ranges of src/aegisrun/marketdata/cache.py: `coverage`, `record_coverage` and
-- `clear_series`. A statement that selects, deletes or inserts rows is a function on the list of rows;
-- each method is one transaction.
use equi_seek.Prelude.{
  ℕ, ◌≤◌, String, ◌==◌, eq_iff, ◌≡◌, refl, Bool, true, false, not, ◌&&◌, ◌||◌, List, [], ◌∷◌, ◌++◌,
  arith, inl, inr, Bool-cases, if◌then◌else◌, ◌∙◌, ap,
}
use equi_seek.MarketData.Coverage.Ranges.{
  DateRange, is_covered, has_day, sort_ranges, merge_ranges, missing_ranges,
}
use equi_seek.MarketData.Coverage.Sorting.{IsSorted, sort_ranges-IsSorted, is_covered-sort_ranges}
use equi_seek.MarketData.Coverage.Merging.{merge_ranges_lem}
use equi_seek.MarketData.Coverage.Gaps.{missing_ranges_lem, is_covered-append}

-- `source`, `symbol` and `adjustment`
pub record Series : Type 0 where
  pub source : String
  pub symbol : String
  pub adjustment : String

pub record CoverageRow : Type 0 where
  pub series : Series
  pub range : DateRange

-- `source=? AND symbol=? AND adjustment=?`
abbrev pub same_series : Series → Series → Bool
same_series s t = s.source == t.source && s.symbol == t.symbol && s.adjustment == t.adjustment

unfoldable pub ranges_of : Series → List CoverageRow → List DateRange
ranges_of s [] = []
ranges_of s (row ∷ rows) =
    let rest = ranges_of s rows in if same_series row.series s then row.range ∷ rest else rest

unfoldable pub without_series : Series → List CoverageRow → List CoverageRow
without_series s [] = []
without_series s (row ∷ rows) =
    let rest = without_series s rows in if same_series row.series s then rest else row ∷ rest

unfoldable pub rows_for : Series → List DateRange → List CoverageRow
rows_for s [] = []
rows_for s (r ∷ rs) = record { series = s; range = r } ∷ rows_for s rs

unfoldable pub coverage : Series → List CoverageRow → List DateRange
coverage s rows = sort_ranges (ranges_of s rows)

unfoldable pub record_coverage : Series → DateRange → List CoverageRow → List CoverageRow
record_coverage s added rows =
    without_series s rows ++ rows_for s (merge_ranges (ranges_of s rows ++ added ∷ []))

coverage-IsSorted : (s : Series) (rows : List CoverageRow) → IsSorted (coverage s rows)
unfolding coverage
coverage-IsSorted s rows = sort_ranges-IsSorted (ranges_of s rows)

append_nil : (xs : List DateRange) → xs ++ [] ≡ xs
append_nil [] = refl
append_nil (x ∷ xs) = ap (λ ys. x ∷ ys) (append_nil xs)

pub same_series_refl : (s : Series) → same_series s s ≡ true
same_series_refl s =
    ground
      (arith, eq_iff s.source s.source, eq_iff s.symbol s.symbol, eq_iff s.adjustment s.adjustment)

module _ (s : Series) where
  ranges_of-append :
      (xs ys : List CoverageRow) → ranges_of s (xs ++ ys) ≡ ranges_of s xs ++ ranges_of s ys
  unfolding ranges_of
  ranges_of-append [] ys = refl
  ranges_of-append (x ∷ xs) ys = ground (arith, ranges_of-append xs ys)

  pub ranges_of-without : (rows : List CoverageRow) → ranges_of s (without_series s rows) ≡ []
  unfolding ranges_of without_series
  ranges_of-without [] = refl
  ranges_of-without (row ∷ rows) = ground (arith, ranges_of-without rows)

  ranges_of-rows_for : (rs : List DateRange) → ranges_of s (rows_for s rs) ≡ rs
  unfolding ranges_of rows_for
  ranges_of-rows_for [] = refl
  ranges_of-rows_for (r ∷ rs) = ground (arith, same_series_refl s, ranges_of-rows_for rs)

  ranges_of-record :
      (added : DateRange) (rows : List CoverageRow)
      → ranges_of s (record_coverage s added rows) ≡ merge_ranges (ranges_of s rows ++ added ∷ [])
  unfolding record_coverage
  ranges_of-record added rows =
      let merged = merge_ranges (ranges_of s rows ++ added ∷ []) in
      rw
        (
          ranges_of-append (without_series s rows) (rows_for s merged),
          ranges_of-without rows,
          ranges_of-rows_for merged,
        )
        refl

  is_covered-record :
      (d : ℕ) (added : DateRange) (rows : List CoverageRow)
      → is_covered d (coverage s (record_coverage s added rows))
        ≡ (is_covered d (coverage s rows) || has_day d added)
  unfolding coverage is_covered
  is_covered-record d added rows =
      let all = ranges_of s rows ++ added ∷ [] in
      let kept = (merge_ranges_lem all).0 d in
      ground (
        arith,
        is_covered-sort_ranges d (ranges_of s (record_coverage s added rows)),
        is_covered-sort_ranges d (ranges_of s rows),
        ranges_of-record added rows,
        kept,
        is_covered-append d (ranges_of s rows) (added ∷ []),
      )

-- rows of another series are neither deleted nor inserted
module _ (s t : Series) (other : same_series s t ≡ false) where
  ranges_of-other_without :
      (rows : List CoverageRow) → ranges_of t (without_series s rows) ≡ ranges_of t rows
  unfolding ranges_of without_series
  ranges_of-other_without [] = refl
  ranges_of-other_without (row ∷ rows) = elim (Bool-cases (same_series row.series s)) [
    | inl own ↦ ground (
      arith,
      ranges_of-other_without rows,
      eq_iff row.series.source s.source,
      eq_iff row.series.source t.source,
      eq_iff s.source t.source,
      eq_iff row.series.symbol s.symbol,
      eq_iff row.series.symbol t.symbol,
      eq_iff s.symbol t.symbol,
      eq_iff row.series.adjustment s.adjustment,
      eq_iff row.series.adjustment t.adjustment,
      eq_iff s.adjustment t.adjustment,
    )
    | inr alien ↦ rw (alien, ranges_of-other_without rows) refl
  ]

  ranges_of-other_rows : (rs : List DateRange) → ranges_of t (rows_for s rs) ≡ []
  unfolding ranges_of rows_for
  ranges_of-other_rows [] = refl
  ranges_of-other_rows (r ∷ rs) = rw (other, ranges_of-other_rows rs) refl

  coverage-other :
      (added : DateRange) (rows : List CoverageRow)
      → coverage t (record_coverage s added rows) ≡ coverage t rows
  unfolding coverage record_coverage
  coverage-other added rows =
      let merged = merge_ranges (ranges_of s rows ++ added ∷ []) in
      ap sort_ranges (
        ranges_of-append t (without_series s rows) (rows_for s merged)
        ∙ ap (λ xs. ranges_of t (without_series s rows) ++ xs) (ranges_of-other_rows merged)
        ∙ append_nil (ranges_of t (without_series s rows))
        ∙ ranges_of-other_without rows)

-- After a range was recorded for a series, the days that are missing of a request are those that were
-- missing before and are not in the range. The coverage of every other series is what it was.
pub record_coverage_lem :
    (s : Series) (added : DateRange) (rows : List CoverageRow)
    → ((start_date end_date d : ℕ)
        → start_date ≤ end_date
        → is_covered d
            (missing_ranges (coverage s (record_coverage s added rows)) start_date end_date)
          ≡ (is_covered d (missing_ranges (coverage s rows) start_date end_date)
              && not (has_day d added)))
      × ((t : Series)
          → same_series s t ≡ false
          → coverage t (record_coverage s added rows) ≡ coverage t rows)
record_coverage_lem s added rows = (
  λ a b d l.
      let before = (missing_ranges_lem (coverage s rows) a b (coverage-IsSorted s rows) l).0 d in
      let after =
        (missing_ranges_lem (coverage s (record_coverage s added rows)) a b
            (coverage-IsSorted s (record_coverage s added rows)) l).0
          d in
      ground (arith, before, after, is_covered-record s d added rows),
  λ t other. coverage-other s t other added rows,
)
