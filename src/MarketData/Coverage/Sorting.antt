-- ===== src/MarketData/Coverage/Sorting.antt =====
-- The order of ranges in src/aegisrun/marketdata/cache.py.
use equi_seek.Prelude.{ℕ, ◌≤◌, ◌≡◌, refl, ◌||◌, List, [], ◌∷◌, arith, inl, inr, Bool-cases}
use equi_seek.MarketData.Coverage.Ranges.{
  DateRange, is_before, insert_range, sort_ranges, is_covered, has_day,
}

-- no range starts before the day
abbrev pub StartsFrom : ℕ → List DateRange → Type 0
StartsFrom n [] = Unit {0}
StartsFrom n (r ∷ rs) = (n ≤ r.start) × StartsFrom n rs

abbrev pub IsSorted : List DateRange → Type 0
IsSorted [] = Unit {0}
IsSorted (r ∷ rs) = StartsFrom r.start rs × IsSorted rs

-- the ranges that `DateRange` accepts
abbrev pub IsValid : List DateRange → Type 0
IsValid [] = Unit {0}
IsValid (r ∷ rs) = (r.start ≤ r.end) × IsValid rs

pub StartsFrom-le : (m n : ℕ) (rs : List DateRange) → m ≤ n → StartsFrom n rs → StartsFrom m rs
StartsFrom-le m n [] l h = tt
StartsFrom-le m n (r ∷ rs) l (a, b) = (omega arith, StartsFrom-le m n rs l b)

insert_range-StartsFrom :
    (n : ℕ) (r : DateRange) (rs : List DateRange)
    → n ≤ r.start
    → StartsFrom n rs
    → StartsFrom n (insert_range r rs)
unfolding insert_range
insert_range-StartsFrom n r [] l h = (l, tt)
insert_range-StartsFrom n r (x ∷ xs) l (a, b) = elim (Bool-cases (is_before r x)) [
  | inl first ↦ rw first (l, (a, b))
  | inr later ↦ rw later (a, insert_range-StartsFrom n r xs l b)
]

insert_range-IsSorted :
    (r : DateRange) (rs : List DateRange) → IsSorted rs → IsSorted (insert_range r rs)
unfolding insert_range
insert_range-IsSorted r [] h = (tt, tt)
insert_range-IsSorted r (x ∷ xs) (a, b) = elim (Bool-cases (is_before r x)) [
  | inl first ↦ rw first (
      let l : r.start ≤ x.start = ground arith in
      ((l, StartsFrom-le r.start x.start xs l a), (a, b)))
  | inr later ↦ rw later (
      let l : x.start ≤ r.start = ground arith in
      (insert_range-StartsFrom x.start r xs l a, insert_range-IsSorted r xs b))
]

pub sort_ranges-IsSorted : (rs : List DateRange) → IsSorted (sort_ranges rs)
unfolding sort_ranges
sort_ranges-IsSorted [] = tt
sort_ranges-IsSorted (r ∷ rs) = insert_range-IsSorted r (sort_ranges rs) (sort_ranges-IsSorted rs)

insert_range-IsValid :
    (r : DateRange) (rs : List DateRange)
    → r.start ≤ r.end
    → IsValid rs
    → IsValid (insert_range r rs)
unfolding insert_range
insert_range-IsValid r [] l h = (l, tt)
insert_range-IsValid r (x ∷ xs) l (a, b) = elim (Bool-cases (is_before r x)) [
  | inl first ↦ rw first (l, (a, b))
  | inr later ↦ rw later (a, insert_range-IsValid r xs l b)
]

pub sort_ranges-IsValid : (rs : List DateRange) → IsValid rs → IsValid (sort_ranges rs)
unfolding sort_ranges
sort_ranges-IsValid [] h = tt
sort_ranges-IsValid (r ∷ rs) (l, h) =
    insert_range-IsValid r (sort_ranges rs) l (sort_ranges-IsValid rs h)

is_covered-insert_range :
    (d : ℕ) (r : DateRange) (rs : List DateRange)
    → is_covered d (insert_range r rs) ≡ (has_day d r || is_covered d rs)
unfolding insert_range is_covered
is_covered-insert_range d r [] = refl
is_covered-insert_range d r (x ∷ xs) = ground (arith, is_covered-insert_range d r xs)

pub is_covered-sort_ranges :
    (d : ℕ) (rs : List DateRange) → is_covered d (sort_ranges rs) ≡ is_covered d rs
unfolding sort_ranges is_covered
is_covered-sort_ranges d [] = refl
is_covered-sort_ranges d (r ∷ rs) =
    ground (arith, is_covered-insert_range d r (sort_ranges rs), is_covered-sort_ranges d rs)
