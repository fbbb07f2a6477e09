-- ===== src/MarketData/Coverage/Gaps.antt =====
-- What `missing_ranges` of src/aegisrun/marketdata/cache.py gives.
use equi_seek.Prelude.{
  ℕ, ◌+◌, ◌≤◌, ◌<◌, ◌≡◌, refl, false, not, ◌&&◌, ◌||◌, List, [], ◌∷◌, ◌++◌, leb, ltb, arith, inl,
  inr, Bool-cases,
}
use equi_seek.MarketData.Coverage.Ranges.{
  DateRange, max, is_covered, gaps_from, gap_before, last_gap, missing_ranges,
}
use equi_seek.MarketData.Coverage.Sorting.{StartsFrom, IsSorted, IsValid}

pub is_covered-append :
    (d : ℕ) (xs ys : List DateRange)
    → is_covered d (xs ++ ys) ≡ (is_covered d xs || is_covered d ys)
unfolding is_covered
is_covered-append d [] ys = refl
is_covered-append d (x ∷ xs) ys = ground (arith, is_covered-append d xs ys)

before_start : (d n : ℕ) (rs : List DateRange) → StartsFrom n rs → d < n → is_covered d rs ≡ false
unfolding is_covered
before_start d n [] s l = refl
before_start d n (r ∷ rs) (a, b) l = ground (arith, before_start d n rs b l)

is_covered-last_gap :
    (d cursor end_date : ℕ)
    → is_covered d (last_gap cursor end_date) ≡ (leb cursor d && leb d end_date)
unfolding is_covered
is_covered-last_gap d cursor end_date = elim (Bool-cases (leb cursor end_date)) [
  | inl some_day ↦ rw some_day (ground arith)
  | inr none_left ↦ rw none_left (ground arith)
]

is_covered-gap_before :
    (d cursor end_date : ℕ) (covered : DateRange)
    → is_covered d (gap_before cursor end_date covered)
      ≡ (leb cursor d && leb d end_date && ltb d covered.start)
unfolding is_covered
is_covered-gap_before d cursor end_date covered = elim (Bool-cases (ltb cursor covered.start)) [
  | inl gap ↦ rw gap (ground arith)
  | inr adjacent ↦ rw adjacent (ground arith)
]

is_covered-gaps_from :
    (d cursor end_date : ℕ) (rs : List DateRange)
    → IsSorted rs
    → is_covered d (gaps_from cursor end_date rs)
      ≡ (leb cursor d && leb d end_date && not (is_covered d rs))
unfolding gaps_from is_covered
is_covered-gaps_from d cursor end_date [] h = ground (arith, is_covered-last_gap d cursor end_date)
is_covered-gaps_from d cursor end_date (covered ∷ rest) (a, b) =
    let next = max cursor (covered.end + 1) in
    elim (Bool-cases (ltb covered.end cursor)) [
      | inl past ↦ rw (past, is_covered-gaps_from d cursor end_date rest b) (ground arith)
      | inr reaches ↦ elim (Bool-cases (ltb end_date covered.start)) [
        | inl beyond ↦
            rw (reaches, beyond, is_covered-last_gap d cursor end_date)
              (ground (arith, before_start d covered.start rest a))
        | inr touches ↦ elim (Bool-cases (ltb end_date next)) [
          | inl done ↦
              rw (reaches, touches, done, is_covered-gap_before d cursor end_date covered)
                (ground (arith, before_start d covered.start rest a))
          | inr more ↦
              rw
                (
                  reaches,
                  touches,
                  more,
                  is_covered-append d (gap_before cursor end_date covered)
                      (gaps_from next end_date rest),
                  is_covered-gap_before d cursor end_date covered,
                  is_covered-gaps_from d next end_date rest b,
                )
                (ground (arith, before_start d covered.start rest a))
        ]
      ]
    ]

IsValid-append : (xs ys : List DateRange) → IsValid xs → IsValid ys → IsValid (xs ++ ys)
IsValid-append [] ys a b = b
IsValid-append (x ∷ xs) ys (l, a) b = (l, IsValid-append xs ys a b)

last_gap-IsValid : (cursor end_date : ℕ) → IsValid (last_gap cursor end_date)
last_gap-IsValid cursor end_date = elim (Bool-cases (leb cursor end_date)) [
  | inl some_day ↦ rw some_day (ground arith, tt)
  | inr none_left ↦ rw none_left tt
]

gap_before-IsValid :
    (cursor end_date : ℕ) (covered : DateRange)
    → cursor ≤ end_date
    → IsValid (gap_before cursor end_date covered)
gap_before-IsValid cursor end_date covered l = elim (Bool-cases (ltb cursor covered.start)) [
  | inl gap ↦ rw gap (ground arith, tt)
  | inr adjacent ↦ rw adjacent tt
]

gaps_from-IsValid :
    (cursor end_date : ℕ) (rs : List DateRange)
    → cursor ≤ end_date
    → IsValid (gaps_from cursor end_date rs)
unfolding gaps_from
gaps_from-IsValid cursor end_date [] l = last_gap-IsValid cursor end_date
gaps_from-IsValid cursor end_date (covered ∷ rest) l =
    let next = max cursor (covered.end + 1) in
    let before = gap_before-IsValid cursor end_date covered l in
    elim (Bool-cases (ltb covered.end cursor)) [
      | inl past ↦ rw past (gaps_from-IsValid cursor end_date rest l)
      | inr reaches ↦ elim (Bool-cases (ltb end_date covered.start)) [
        | inl beyond ↦ rw (reaches, beyond) (last_gap-IsValid cursor end_date)
        | inr touches ↦ elim (Bool-cases (ltb end_date next)) [
          | inl done ↦ rw (reaches, touches, done) before
          | inr more ↦
              rw (reaches, touches, more)
                (IsValid-append (gap_before cursor end_date covered) (gaps_from next end_date rest)
                  before (gaps_from-IsValid next end_date rest (ground arith)))
        ]
      ]
    ]

-- From a coverage in the order of its start dates, the missing ranges hold exactly the requested days
-- that no covered range holds, and each of them is one that `DateRange` accepts, so that a request from
-- a date to no earlier one raises nothing.
pub missing_ranges_lem :
    (coverage : List DateRange) (start_date end_date : ℕ)
    → IsSorted coverage
    → start_date ≤ end_date
    → ((d : ℕ)
        → is_covered d (missing_ranges coverage start_date end_date)
          ≡ (leb start_date d && leb d end_date && not (is_covered d coverage)))
      × IsValid (missing_ranges coverage start_date end_date)
unfolding missing_ranges
missing_ranges_lem coverage start_date end_date sorted l = (
  λ d. is_covered-gaps_from d start_date end_date coverage sorted,
  gaps_from-IsValid start_date end_date coverage l,
)
