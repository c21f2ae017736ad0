-- ===== src/Stock/Anchor.antt =====
-- stock_service.py: which rows of daily_figures are trusted for their opening stock, and the search
-- for the latest one before a period.
pub mod Latest
pub mod Next
use daily_figures.Common.{
  ℕ, ◌+◌, ◌-◌, Bool, true, false, not, ◌&&◌, Option, none, some, ◌==◌, ltb, if◌then◌else◌,
  filter_where, find_first, sort_desc,
}
use daily_figures.Records.{
  Shift, day, night, same_shift, sort_key, DailyFigure, is_anchor_eligible, is_unconditional_anchor,
}
use daily_figures.Stock.Database.{Database}
use daily_figures.Stock.Queries.{any_finalized_activity_at_or_before}

-- `_shift_date(date, 1)` and `_shift_date(date, -1)`. Python has no day before day 1.
abbrev pub next_date : ℕ → ℕ
next_date date = date + 1

abbrev pub prev_date : ℕ → ℕ
prev_date date = date - 1

-- The date and the shift of the period before a period: where a range that ends just before it ends.
abbrev pub prev_period_date : ℕ → Shift → ℕ
prev_period_date date night = date
prev_period_date date day = prev_date date

abbrev pub prev_period_shift : Shift → Shift
prev_period_shift night = day
prev_period_shift day = night

-- The period after a period: where a range that starts just after it starts.
abbrev pub next_period_date : ℕ → Shift → ℕ
next_period_date date day = date
next_period_date date night = next_date date

abbrev pub next_period_shift : Shift → Shift
next_period_shift day = night
next_period_shift night = day

abbrev pub figure_key : DailyFigure → ℕ
figure_key f = sort_key f.date f.shift

-- `DailyFigure.query.filter_by(product_id=..., date=..., shift=...).first()`
abbrev pub is_figure_at : (product_id date : ℕ) → Shift → DailyFigure → Bool
is_figure_at product_id date shift f =
    f.product_id == product_id && (f.date == date && same_shift f.shift shift)

-- `exclude_id=figure.id if figure else None`
abbrev pub id_of : Option DailyFigure → Option ℕ
id_of none = none
id_of (some f) = some f.id

module _ (db : Database) where
  unfoldable pub is_trusted_anchor : DailyFigure → Bool
  is_trusted_anchor f =
      if not (is_anchor_eligible f.opening_stock_source)
      then false
      else if is_unconditional_anchor f.opening_stock_source
      then true
      else not (
          any_finalized_activity_at_or_before db f.product_id (prev_period_date f.date f.shift)
            (prev_period_shift f.shift))

  -- `DailyFigure.id != exclude_id`, where an id is given
  abbrev pub is_not_excluded : Option ℕ → DailyFigure → Bool
  is_not_excluded none f = true
  is_not_excluded (some id) f = not (f.id == id)

  -- The rows that the anchor search sorts.
  abbrev pub is_candidate : (product_id date : ℕ) → Shift → Option ℕ → DailyFigure → Bool
  is_candidate product_id date shift exclude_id f =
      (f.product_id == product_id && is_anchor_eligible f.opening_stock_source)
      && (is_not_excluded exclude_id f && ltb (figure_key f) (sort_key date shift))

  unfoldable pub find_anchor_figure : (product_id date : ℕ) → Shift → Option ℕ → Option DailyFigure
  find_anchor_figure product_id date shift exclude_id = find_first is_trusted_anchor (
      sort_desc figure_key
        (filter_where (is_candidate product_id date shift exclude_id) db.figures))

  abbrev pub figure_at : (product_id date : ℕ) → Shift → Option DailyFigure
  figure_at product_id date shift = find_first (is_figure_at product_id date shift) db.figures

  -- `figure is not None and _is_trusted_anchor(figure)`
  abbrev pub is_trusted : Option DailyFigure → Bool
  is_trusted none = false
  is_trusted (some f) = is_trusted_anchor f
