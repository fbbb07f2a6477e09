-- ===== src/MarketData/Coverage/Ranges.antt =====
-- `DateRange`, `missing_ranges` and `_merge_ranges` of src/aegisrun/marketdata/cache.py. A date is
-- its ordinal number of days; the order of ISO texts in the database is that of the days.
use equi_seek.Prelude.{
  ℕ, ◌+◌, ◌-◌, Bool, false, ◌&&◌, ◌||◌, List, [], ◌∷◌, ◌++◌, leb, ltb, nat_eq, if◌then◌else◌,
}

pub record DateRange : Type 0 where
  pub start : ℕ
  pub end : ℕ

abbrev pub max : ℕ → ℕ → ℕ
max a b = if leb a b then b else a

abbrev pub min : ℕ → ℕ → ℕ
min a b = if leb a b then a else b

-- the day is in the range
abbrev pub has_day : ℕ → DateRange → Bool
has_day d r = leb r.start d && leb d r.end

-- the day is in one of the ranges
unfoldable pub is_covered : ℕ → List DateRange → Bool
is_covered d [] = false
is_covered d (r ∷ rs) = has_day d r || is_covered d rs

-- the order of `sorted(ranges, key=lambda item: (item.start, item.end))`
abbrev pub is_before : DateRange → DateRange → Bool
is_before a b = ltb a.start b.start || (nat_eq a.start b.start && leb a.end b.end)

unfoldable pub insert_range : DateRange → List DateRange → List DateRange
insert_range r [] = r ∷ []
insert_range r (x ∷ xs) =
    let rest = insert_range r xs in if is_before r x then r ∷ x ∷ xs else x ∷ rest

unfoldable pub sort_ranges : List DateRange → List DateRange
sort_ranges [] = []
sort_ranges (r ∷ rs) = insert_range r (sort_ranges rs)

-- `if cursor <= end_date: gaps.append(...)`
abbrev pub last_gap : ℕ → ℕ → List DateRange
last_gap cursor end_date =
    if leb cursor end_date then record { start = cursor; end = end_date } ∷ [] else []

-- `if covered.start > cursor: gaps.append(...)`
abbrev pub gap_before : ℕ → ℕ → DateRange → List DateRange
gap_before cursor end_date covered =
    if ltb cursor covered.start
    then record { start = cursor; end = min end_date (covered.start - 1) } ∷ []
    else []

-- the loop of `missing_ranges` and what follows it
unfoldable pub gaps_from : (cursor end_date : ℕ) → List DateRange → List DateRange
gaps_from cursor end_date [] = last_gap cursor end_date
gaps_from cursor end_date (covered ∷ rest) =
    let next = max cursor (covered.end + 1) in
    let skipped = gaps_from cursor end_date rest in
    let later = gaps_from next end_date rest in
    if ltb covered.end cursor
    then skipped
    else if ltb end_date covered.start
    then last_gap cursor end_date
    else if ltb end_date next
    then gap_before cursor end_date covered
    else gap_before cursor end_date covered ++ later

unfoldable pub missing_ranges : List DateRange → (start_date end_date : ℕ) → List DateRange
missing_ranges coverage start_date end_date = gaps_from start_date end_date coverage

-- the loop of `_merge_ranges`: the last of the merged ranges is the current one
unfoldable pub merge_from : DateRange → List DateRange → List DateRange
merge_from current [] = current ∷ []
merge_from current (item ∷ items) =
    let joined =
      merge_from (record { start = current.start; end = max current.end item.end }) items in
    let next = merge_from item items in
    if leb item.start (current.end + 1) then joined else current ∷ next

abbrev pub merge_sorted : List DateRange → List DateRange
merge_sorted [] = []
merge_sorted (first ∷ rest) = merge_from first rest

unfoldable pub merge_ranges : List DateRange → List DateRange
merge_ranges ranges = merge_sorted (sort_ranges ranges)
