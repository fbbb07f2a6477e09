-- ===== src/MarketData/Prices.antt =====
-- The table of price bars of `MarketDataCache` in src/aegisrun/marketdata/cache.py: `store_dataset`,
-- `load_bars` and `clear_series`. What a bar holds besides its date is a parameter.
use equi_seek.Prelude.{
  ℕ, ◌≤◌, ◌≡◌, refl, Bool, false, ◌&&◌, Option, none, some, List, [], ◌∷◌, leb, nat_eq, arith, inl,
  inr, Bool-cases, if◌then◌else◌, subst,
}
use equi_seek.MarketData.Coverage.Ranges.{DateRange, missing_ranges, gaps_from, sort_ranges}
use equi_seek.MarketData.Coverage.Table.{
  Series, CoverageRow, same_series, same_series_refl, record_coverage, without_series, coverage,
  ranges_of-without,
}

module _ (V : Type 0) where
  pub record PriceBar : Type 0 where
    pub trade_date : ℕ
    pub values : V

  pub record PriceRow : Type 0 where
    pub series : Series
    pub bar : PriceBar

  pub record MarketDataSet : Type 0 where
    pub series : Series
    pub is_synthetic : Bool
    pub bars : List PriceBar

  pub record Database : Type 0 where
    pub price_rows : List PriceRow
    pub coverage_rows : List CoverageRow

module _ {V : Type 0} where
  -- the primary key `(source, symbol, adjustment, trade_date)`
  abbrev pub has_key : Series → ℕ → PriceRow V → Bool
  has_key s d row = same_series row.series s && nat_eq row.bar.trade_date d

  -- `INSERT ... ON CONFLICT ... DO UPDATE`
  unfoldable pub upsert : Series → PriceBar V → List (PriceRow V) → List (PriceRow V)
  upsert s bar [] = record { series = s; bar = bar } ∷ []
  upsert s bar (row ∷ rows) =
      let rest = upsert s bar rows in
      if has_key s bar.trade_date row then record row { bar = bar } ∷ rows else row ∷ rest

  unfoldable pub upsert_all : Series → List (PriceBar V) → List (PriceRow V) → List (PriceRow V)
  upsert_all s [] rows = rows
  upsert_all s (bar ∷ bars) rows = upsert_all s bars (upsert s bar rows)

  -- `store_dataset`; `none` stands for the `ValueError`
  unfoldable pub store_dataset : MarketDataSet V → DateRange → Database V → Option (Database V)
  store_dataset dataset covered db =
      if dataset.is_synthetic
      then none
      else some (record {
        price_rows = upsert_all dataset.series dataset.bars db.price_rows;
        coverage_rows = record_coverage dataset.series covered db.coverage_rows;
      })

  unfoldable pub select_bars :
      Series → (start_date end_date : ℕ) → List (PriceRow V) → List (PriceBar V)
  select_bars s a b [] = []
  select_bars s a b (row ∷ rows) =
      let rest = select_bars s a b rows in
      if same_series row.series s && leb a row.bar.trade_date && leb row.bar.trade_date b
      then row.bar ∷ rest
      else rest

  -- `ORDER BY trade_date`
  unfoldable pub insert_bar : PriceBar V → List (PriceBar V) → List (PriceBar V)
  insert_bar bar [] = bar ∷ []
  insert_bar bar (x ∷ xs) =
      let rest = insert_bar bar xs in
      if leb bar.trade_date x.trade_date then bar ∷ x ∷ xs else x ∷ rest

  unfoldable pub sort_bars : List (PriceBar V) → List (PriceBar V)
  sort_bars [] = []
  sort_bars (bar ∷ bars) = insert_bar bar (sort_bars bars)

  unfoldable pub load_bars : Series → (start_date end_date : ℕ) → Database V → List (PriceBar V)
  load_bars s a b db = sort_bars (select_bars s a b db.price_rows)

  unfoldable pub without_prices : Series → List (PriceRow V) → List (PriceRow V)
  without_prices s [] = []
  without_prices s (row ∷ rows) =
      let rest = without_prices s rows in if same_series row.series s then rest else row ∷ rest

  unfoldable pub clear_series : Series → Database V → Database V
  clear_series s db = record {
    price_rows = without_prices s db.price_rows;
    coverage_rows = without_series s db.coverage_rows;
  }

  -- the bar of the day in a list of bars
  unfoldable pub bar_on : ℕ → List (PriceBar V) → Option (PriceBar V)
  bar_on d [] = none
  bar_on d (bar ∷ bars) = if nat_eq bar.trade_date d then some bar else bar_on d bars

  -- the last bar of the day in the list, or else the given one
  unfoldable pub last_on : ℕ → List (PriceBar V) → Option (PriceBar V) → Option (PriceBar V)
  last_on d [] old = old
  last_on d (bar ∷ bars) old = last_on d bars (if nat_eq bar.trade_date d then some bar else old)

  -- the stored bar of the series and day
  unfoldable pub stored_on : Series → ℕ → List (PriceRow V) → Option (PriceBar V)
  stored_on s d [] = none
  stored_on s d (row ∷ rows) = if has_key s d row then some row.bar else stored_on s d rows

  bar_on-insert_bar :
      (d : ℕ) (bar : PriceBar V) (xs : List (PriceBar V))
      → bar_on d (insert_bar bar xs) ≡ (if nat_eq bar.trade_date d then some bar else bar_on d xs)
  unfolding bar_on insert_bar
  bar_on-insert_bar d bar [] = refl
  bar_on-insert_bar d bar (x ∷ xs) = elim (Bool-cases (leb bar.trade_date x.trade_date)) [
    | inl first ↦ rw first refl
    | inr later ↦ elim (Bool-cases (nat_eq bar.trade_date d)) [
      | inl here ↦ elim (Bool-cases (nat_eq x.trade_date d)) [
        | inl also ↦ absurd (ground arith)
        | inr not_x ↦ rw (later, not_x, bar_on-insert_bar d bar xs) refl
      ]
      | inr not_bar ↦ rw (later, bar_on-insert_bar d bar xs, not_bar) refl
    ]
  ]

  bar_on-sort_bars : (d : ℕ) (bars : List (PriceBar V)) → bar_on d (sort_bars bars) ≡ bar_on d bars
  unfolding bar_on sort_bars
  bar_on-sort_bars d [] = refl
  bar_on-sort_bars d (bar ∷ bars) =
      rw (bar_on-insert_bar d bar (sort_bars bars), bar_on-sort_bars d bars) refl

  bar_on-select_bars :
      (s : Series) (a b d : ℕ) (rows : List (PriceRow V))
      → bar_on d (select_bars s a b rows)
        ≡ (if leb a d && leb d b then stored_on s d rows else none)
  unfolding bar_on select_bars stored_on
  bar_on-select_bars s a b d [] = ground arith
  bar_on-select_bars s a b d (row ∷ rows) = ground (arith, bar_on-select_bars s a b d rows)

  stored_on-upsert :
      (s : Series) (bar : PriceBar V) (d : ℕ) (rows : List (PriceRow V))
      → stored_on s d (upsert s bar rows)
        ≡ (if nat_eq bar.trade_date d then some bar else stored_on s d rows)
  unfolding stored_on upsert
  stored_on-upsert s bar d [] = ground (arith, same_series_refl s)
  stored_on-upsert s bar d (row ∷ rows) = ground (arith, stored_on-upsert s bar d rows)

  stored_on-upsert_all :
      (s : Series) (bars : List (PriceBar V)) (d : ℕ) (rows : List (PriceRow V))
      → stored_on s d (upsert_all s bars rows) ≡ last_on d bars (stored_on s d rows)
  unfolding upsert_all last_on
  stored_on-upsert_all s [] d rows = refl
  stored_on-upsert_all s (bar ∷ bars) d rows =
      rw (stored_on-upsert_all s bars d (upsert s bar rows), stored_on-upsert s bar d rows) refl

  -- Loading a series after a real dataset of it was stored: on each day of the request stands the last
  -- bar that the dataset has of the day, and where it has none the bar that was stored before; on no
  -- other day stands a bar. A synthetic dataset is refused.
  pub store_dataset-load_bars :
      (dataset : MarketDataSet V) (covered : DateRange) (db db' : Database V)
      → store_dataset dataset covered db ≡ some db'
      → (dataset.is_synthetic ≡ false)
        × ((a b d : ℕ)
            → bar_on d (load_bars dataset.series a b db') ≡ (
                if leb a d && leb d b
                then last_on d dataset.bars (stored_on dataset.series d db.price_rows)
                else none))
  unfolding store_dataset load_bars
  store_dataset-load_bars dataset covered db db' h = elim (Bool-cases dataset.is_synthetic) [
    | inl synthetic ↦ absurd (ground arith)
    | inr genuine ↦ (
      genuine,
      λ a b d.
          let rows = upsert_all dataset.series dataset.bars db.price_rows in
          let same : rows ≡ db'.price_rows = ground arith in
          subst
            (λ (stored : List (PriceRow V)).
              bar_on d (sort_bars (select_bars dataset.series a b stored)) ≡ (
                if leb a d && leb d b
                then last_on d dataset.bars (stored_on dataset.series d db.price_rows)
                else none))
            same
            (rw
              (
                bar_on-sort_bars d (select_bars dataset.series a b rows),
                bar_on-select_bars dataset.series a b d rows,
                stored_on-upsert_all dataset.series dataset.bars d db.price_rows,
              )
              refl),
    )
  ]

  select_bars-without :
      (s : Series) (a b : ℕ) (rows : List (PriceRow V))
      → select_bars s a b (without_prices s rows) ≡ []
  unfolding select_bars without_prices
  select_bars-without s a b [] = refl
  select_bars-without s a b (row ∷ rows) = ground (arith, select_bars-without s a b rows)

  -- A cleared series has no bars, and the whole of any request of it is missing again.
  pub clear_series_lem :
      (s : Series) (db : Database V) (start_date end_date : ℕ)
      → start_date ≤ end_date
      → (load_bars s start_date end_date (clear_series s db) ≡ [])
        × (missing_ranges (coverage s (clear_series s db).coverage_rows) start_date end_date
            ≡ record { start = start_date; end = end_date } ∷ [])
  unfolding load_bars clear_series sort_bars coverage missing_ranges gaps_from sort_ranges
  clear_series_lem s db a b l = (
    rw (select_bars-without s a b db.price_rows) refl,
    rw (ranges_of-without s db.coverage_rows) (ground arith),
  )
