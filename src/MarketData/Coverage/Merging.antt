-- ===== src/MarketData/Coverage/Merging.antt =====
-- What `_merge_ranges` of src/aegisrun/marketdata/cache.py gives.
use equi_seek.Prelude.{
  ℕ, ◌+◌, ◌≤◌, ◌≡◌, refl, ◌||◌, List, [], ◌∷◌, leb, arith, inl, inr, Bool-cases, ◌∙◌,
}
use equi_seek.MarketData.Coverage.Ranges.{
  DateRange, max, is_covered, has_day, sort_ranges, merge_from, merge_sorted, merge_ranges,
}
use equi_seek.MarketData.Coverage.Sorting.{
  StartsFrom, StartsFrom-le, IsSorted, IsValid, sort_ranges-IsSorted, sort_ranges-IsValid,
  is_covered-sort_ranges,
}

-- in order, with at least one day that is in no range between any two
abbrev pub IsSeparated : List DateRange → Type 0
IsSeparated [] = Unit {0}
IsSeparated (r ∷ rs) = StartsFrom (r.end + 2) rs × IsSeparated rs

abbrev join : DateRange → DateRange → DateRange
join current item = record { start = current.start; end = max current.end item.end }

is_covered-merge_from :
    (d : ℕ) (current : DateRange) (items : List DateRange)
    → StartsFrom current.start items
    → IsSorted items
    → is_covered d (merge_from current items) ≡ (has_day d current || is_covered d items)
unfolding merge_from is_covered
is_covered-merge_from d current [] s h = refl
is_covered-merge_from d current (item ∷ items) (l, s) (a, b) =
    elim (Bool-cases (leb item.start (current.end + 1))) [
      | inl near ↦
          let ih = is_covered-merge_from d (join current item) items s b in
          rw (near, ih) (ground arith)
      | inr far ↦ let ih = is_covered-merge_from d item items a b in rw (far, ih) refl
    ]

merge_from-StartsFrom :
    (n : ℕ) (current : DateRange) (items : List DateRange)
    → n ≤ current.start
    → StartsFrom n items
    → StartsFrom n (merge_from current items)
unfolding merge_from
merge_from-StartsFrom n current [] l s = (l, tt)
merge_from-StartsFrom n current (item ∷ items) l (m, s) =
    elim (Bool-cases (leb item.start (current.end + 1))) [
      | inl near ↦ rw near (merge_from-StartsFrom n (join current item) items l s)
      | inr far ↦ rw far (l, merge_from-StartsFrom n item items m s)
    ]

merge_from-IsSeparated :
    (current : DateRange) (items : List DateRange)
    → IsSorted items
    → IsSeparated (merge_from current items)
unfolding merge_from
merge_from-IsSeparated current [] h = (tt, tt)
merge_from-IsSeparated current (item ∷ items) (a, b) =
    elim (Bool-cases (leb item.start (current.end + 1))) [
      | inl near ↦ rw near (merge_from-IsSeparated (join current item) items b)
      | inr far ↦ rw far (
          let l : current.end + 2 ≤ item.start = ground arith in
          (
            merge_from-StartsFrom (current.end + 2) item items l
                (StartsFrom-le (current.end + 2) item.start items l a),
            merge_from-IsSeparated item items b,
          ))
    ]

merge_from-IsValid :
    (current : DateRange) (items : List DateRange)
    → current.start ≤ current.end
    → IsValid items
    → IsValid (merge_from current items)
unfolding merge_from
merge_from-IsValid current [] l h = (l, tt)
merge_from-IsValid current (item ∷ items) l (m, h) =
    elim (Bool-cases (leb item.start (current.end + 1))) [
      | inl near ↦ rw near (
          let k : current.start ≤ max current.end item.end = ground arith in
          merge_from-IsValid (join current item) items k h)
      | inr far ↦ rw far (l, merge_from-IsValid item items m h)
    ]

is_covered-merge_sorted :
    (d : ℕ) (rs : List DateRange) → IsSorted rs → is_covered d (merge_sorted rs) ≡ is_covered d rs
unfolding is_covered
is_covered-merge_sorted d [] h = refl
is_covered-merge_sorted d (r ∷ rs) (a, b) = is_covered-merge_from d r rs a b

merge_sorted-IsSeparated : (rs : List DateRange) → IsSorted rs → IsSeparated (merge_sorted rs)
merge_sorted-IsSeparated [] h = tt
merge_sorted-IsSeparated (r ∷ rs) (a, b) = merge_from-IsSeparated r rs b

merge_sorted-IsValid : (rs : List DateRange) → IsValid rs → IsValid (merge_sorted rs)
merge_sorted-IsValid [] h = tt
merge_sorted-IsValid (r ∷ rs) (l, h) = merge_from-IsValid r rs l h

-- Merging keeps the days: a day is in a merged range exactly if it is in one of the given ranges. The
-- merged ranges stand in order and apart, with a day between any two that is in none, and each of them
-- is one that `DateRange` accepts if the given ones are.
pub merge_ranges_lem :
    (rs : List DateRange)
    → ((d : ℕ) → is_covered d (merge_ranges rs) ≡ is_covered d rs)
      × IsSeparated (merge_ranges rs)
      × (IsValid rs → IsValid (merge_ranges rs))
unfolding merge_ranges
merge_ranges_lem rs =
    let sorted = sort_ranges-IsSorted rs in
    (
      λ d. is_covered-merge_sorted d (sort_ranges rs) sorted ∙ is_covered-sort_ranges d rs,
      merge_sorted-IsSeparated (sort_ranges rs) sorted,
      λ h. merge_sorted-IsValid (sort_ranges rs) (sort_ranges-IsValid rs h),
    )
