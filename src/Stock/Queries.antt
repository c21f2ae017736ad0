-- ===== src/Stock/Queries.antt =====
-- stock_service.py: the aggregate queries over the books, for one period and for a range of dates,
-- and the query that asks whether a product has any activity yet.
use daily_figures.Common.{
  ℕ, Bool, ◌&&◌, ◌||◌, List, [], ◌∷◌, ◌++◌, ℤ, pos, ◌+ℤ◌, ◌==◌, ltb, leb, if◌then◌else◌, sum_where,
  exists_where,
}
use daily_figures.Records.{
  Shift, day, night, same_shift, Dispatch, ProductionRecord, ReturnRecord, StockAdjustment,
  is_finalized,
}
use daily_figures.Stock.Database.{Database, Movement, line_movements, stock_posting_return_filter}

-- `Dispatch JOIN DispatchLine WHERE status = finalized`
abbrev dispatched_rows : List Dispatch → List Movement
dispatched_rows [] = []
dispatched_rows (d ∷ ds) =
    (if is_finalized d.status then line_movements d.date d.shift d.lines else [])
    ++ dispatched_rows ds

unfoldable pub dispatched : Database → List Movement
dispatched db = dispatched_rows db.dispatches

-- `ProductionRecord JOIN ProductionLine WHERE status = finalized`
abbrev produced_rows : List ProductionRecord → List Movement
produced_rows [] = []
produced_rows (r ∷ rs) =
    (if is_finalized r.status then line_movements r.date r.shift r.lines else [])
    ++ produced_rows rs

unfoldable pub produced : Database → List Movement
produced db = produced_rows db.productions

-- `ReturnRecord JOIN ReturnLine WHERE stock_posting_return_filter()`. A return has no shift, and
-- posts to the day of its date.
returned_rows : (strftime_w : ℕ → ℕ) → List ReturnRecord → List Movement
returned_rows strftime_w [] = []
returned_rows strftime_w (r ∷ rs) =
    (if stock_posting_return_filter strftime_w r then line_movements r.date day r.lines else [])
    ++ returned_rows strftime_w rs

unfoldable pub returned : Database → List Movement
unfolding returned_rows
returned db = returned_rows db.strftime_w db.returns

abbrev adjusted_rows : List StockAdjustment → List Movement
adjusted_rows [] = []
adjusted_rows (a ∷ rest) =
    record {
      date = a.date;
      shift = a.shift;
      product_id = a.product_id;
      base_qty = a.delta_base_qty;
    }
    ∷ adjusted_rows rest

unfoldable pub adjusted : Database → List Movement
adjusted db = adjusted_rows db.adjustments

-- The tests of the queries, on a row of the join.
abbrev pub is_at : (product_id date : ℕ) → Shift → Movement → Bool
is_at product_id date shift m =
    m.product_id == product_id && (m.date == date && same_shift m.shift shift)

abbrev pub is_on : (product_id date : ℕ) → Movement → Bool
is_on product_id date m = m.product_id == product_id && m.date == date

abbrev pub is_in_dates : (product_id date_from date_to : ℕ) → Movement → Bool
is_in_dates product_id date_from date_to m =
    m.product_id == product_id && (leb date_from m.date && leb m.date date_to)

-- `at_or_before`
abbrev pub is_at_or_before : (product_id date : ℕ) → Shift → Movement → Bool
is_at_or_before product_id date night m =
    m.product_id == product_id && (ltb m.date date || m.date == date)
is_at_or_before product_id date day m =
    m.product_id == product_id && (ltb m.date date || (m.date == date && same_shift m.shift day))

abbrev pub is_until : (product_id date : ℕ) → Movement → Bool
is_until product_id date m = m.product_id == product_id && leb m.date date

abbrev pub total : (Movement → Bool) → List Movement → ℤ
total test rows = sum_where test (λ m. m.base_qty) rows

module _ (db : Database) (product_id : ℕ) where
  unfoldable pub dispatch_issued_base_qty : ℕ → Shift → ℤ
  dispatch_issued_base_qty date shift = total (is_at product_id date shift) (dispatched db)

  unfoldable pub adjustment_total_base_qty : ℕ → Shift → ℤ
  adjustment_total_base_qty date shift = total (is_at product_id date shift) (adjusted db)

  unfoldable pub issued_base_qty : ℕ → Shift → ℤ
  issued_base_qty date shift =
      dispatch_issued_base_qty date shift +ℤ adjustment_total_base_qty date shift

  unfoldable pub returns_finalized_base_qty : ℕ → ℤ
  returns_finalized_base_qty date = total (is_on product_id date) (returned db)

  unfoldable pub production_finalized_base_qty : ℕ → Shift → ℤ
  production_finalized_base_qty date shift = total (is_at product_id date shift) (produced db)

  unfoldable pub dispatch_issued_base_qty_range : (date_from date_to : ℕ) → ℤ
  dispatch_issued_base_qty_range date_from date_to =
      total (is_in_dates product_id date_from date_to) (dispatched db)

  unfoldable pub adjustment_total_base_qty_range : (date_from date_to : ℕ) → ℤ
  adjustment_total_base_qty_range date_from date_to =
      total (is_in_dates product_id date_from date_to) (adjusted db)

  unfoldable pub returns_finalized_base_qty_range : (date_from date_to : ℕ) → ℤ
  returns_finalized_base_qty_range date_from date_to =
      total (is_in_dates product_id date_from date_to) (returned db)

  unfoldable pub production_finalized_base_qty_range : (date_from date_to : ℕ) → ℤ
  production_finalized_base_qty_range date_from date_to =
      total (is_in_dates product_id date_from date_to) (produced db)

  unfoldable pub any_finalized_activity_at_or_before : ℕ → Shift → Bool
  any_finalized_activity_at_or_before date shift =
      exists_where (is_at_or_before product_id date shift) (produced db)
      || exists_where (is_at_or_before product_id date shift) (dispatched db)
      || exists_where (is_at_or_before product_id date shift) (adjusted db)
      || exists_where (is_until product_id date) (returned db)

  -- `legacy_stored` is what the row holds from before the Returns and Production Books.
  unfoldable pub return_base_qty : ℕ → Shift → (legacy_stored : ℤ) → ℤ
  return_base_qty date day legacy_stored = legacy_stored +ℤ returns_finalized_base_qty date
  return_base_qty date night legacy_stored = legacy_stored +ℤ pos 0

  unfoldable pub production_base_qty : ℕ → Shift → (legacy_stored : ℤ) → ℤ
  production_base_qty date shift legacy_stored =
      legacy_stored +ℤ production_finalized_base_qty date shift
