-- ===== src/Stock/Carry.antt =====
-- stock_service.py: what moved between two periods, and the balance that is carried into a period
-- from the latest trusted anchor before it.
pub mod Movement
pub mod Step
pub mod Period
use daily_figures.Common.{
  ℕ, Bool, false, not, ◌&&◌, Option, none, some, List, [], ◌∷◌, ◌==◌, ltb, leb, if◌then◌else◌, ℤ,
  pos, ◌+ℤ◌, ◌-ℤ◌, sum_where, filter_where,
}
use daily_figures.Records.{Shift, day, night, sort_key, DailyFigure}
use daily_figures.Stock.Database.{Database}
use daily_figures.Stock.Queries.{
  any_finalized_activity_at_or_before, dispatch_issued_base_qty, adjustment_total_base_qty,
  issued_base_qty, returns_finalized_base_qty, production_finalized_base_qty,
  dispatch_issued_base_qty_range, adjustment_total_base_qty_range, returns_finalized_base_qty_range,
  production_finalized_base_qty_range, return_base_qty, production_base_qty,
}
use daily_figures.Stock.Anchor.{
  next_date, prev_date, prev_period_date, prev_period_shift, next_period_date, next_period_shift,
  figure_key, figure_at, id_of, is_trusted, is_trusted_anchor, find_anchor_figure,
}

-- `_EPOCH_DATE`, the first day that there is.
abbrev pub epoch_date : ℕ
epoch_date = 1

-- The local variables `production`, `returns` and `issued`.
pub record Totals : Type 0 where
  pub production : ℤ
  pub returns : ℤ
  pub issued : ℤ

abbrev pub no_movement : Totals
no_movement = record { production = pos 0; returns = pos 0; issued = pos 0 }

unfoldable pub compute_closing :
    (opening_base_qty production_total returns_total issued_total : ℤ) → ℤ
compute_closing opening_base_qty production_total returns_total issued_total =
    opening_base_qty +ℤ production_total +ℤ returns_total -ℤ issued_total

abbrev pub is_figure_in_dates : (product_id date_from date_to : ℕ) → DailyFigure → Bool
is_figure_in_dates product_id date_from date_to f =
    f.product_id == product_id && (leb date_from f.date && leb f.date date_to)

abbrev pub is_figure_in_keys : (start_key end_key : ℕ) → DailyFigure → Bool
is_figure_in_keys start_key end_key f = leb start_key (figure_key f) && leb (figure_key f) end_key

unfoldable pub add_legacy : Totals → ℤ × ℤ → Totals
add_legacy t legacy = record {
  production = t.production +ℤ legacy.0;
  returns = t.returns +ℤ legacy.1;
  issued = t.issued;
}

-- The periods of a range within one date.
abbrev pub shifts_of : Shift → Shift → List Shift
shifts_of day night = day ∷ night ∷ []
shifts_of start_shift end_shift = start_shift ∷ []

-- The whole days of a range start on the next date if the range starts at night, and end on the date
-- before if it ends in the day.
abbrev pub mid_from : ℕ → Shift → ℕ
mid_from start_date night = next_date start_date
mid_from start_date day = start_date

abbrev pub mid_to : ℕ → Shift → ℕ
mid_to end_date day = prev_date end_date
mid_to end_date night = end_date

module _ (db : Database) (product_id : ℕ) where
  unfoldable pub legacy_sum : (DailyFigure → ℤ) → ℕ → Shift → ℕ → Shift → ℤ
  legacy_sum qty start_date start_shift end_date end_shift =
      sum_where (is_figure_in_keys (sort_key start_date start_shift) (sort_key end_date end_shift))
        qty (filter_where (is_figure_in_dates product_id start_date end_date) db.figures)

  -- `_legacy_stored_movement_in_window`
  unfoldable pub legacy_stored_movement_in_window : ℕ → Shift → ℕ → Shift → ℤ × ℤ
  legacy_stored_movement_in_window start_date start_shift end_date end_shift =
      if ltb (sort_key end_date end_shift) (sort_key start_date start_shift)
      then (pos 0, pos 0)
      else (
        legacy_sum (λ f. f.production_base_qty) start_date start_shift end_date end_shift,
        legacy_sum (λ f. f.return_base_qty) start_date start_shift end_date end_shift,
      )

  -- What one period adds. Returns count in the day only.
  unfoldable pub add_period : Totals → ℕ → Shift → Totals
  add_period t date day = record {
    production = t.production +ℤ production_finalized_base_qty db product_id date day;
    returns = t.returns +ℤ returns_finalized_base_qty db product_id date;
    issued =
        t.issued
        +ℤ (dispatch_issued_base_qty db product_id date day
            +ℤ adjustment_total_base_qty db product_id date day);
  }
  add_period t date night = record {
    production = t.production +ℤ production_finalized_base_qty db product_id date night;
    returns = t.returns;
    issued =
        t.issued
        +ℤ (dispatch_issued_base_qty db product_id date night
            +ℤ adjustment_total_base_qty db product_id date night);
  }

  -- `for s in shifts`
  unfoldable pub add_periods : Totals → ℕ → List Shift → Totals
  add_periods t date [] = t
  add_periods t date (s ∷ shifts) = add_periods (add_period t date s) date shifts

  -- What the whole days of a range add.
  unfoldable pub add_dates : Totals → (date_from date_to : ℕ) → Totals
  add_dates t date_from date_to = record {
    production =
        t.production +ℤ production_finalized_base_qty_range db product_id date_from date_to;
    returns = t.returns +ℤ returns_finalized_base_qty_range db product_id date_from date_to;
    issued =
        t.issued
        +ℤ (dispatch_issued_base_qty_range db product_id date_from date_to
            +ℤ adjustment_total_base_qty_range db product_id date_from date_to);
  }

  -- A range that starts at night takes that night alone.
  unfoldable pub add_start : Totals → ℕ → Shift → Totals
  add_start t start_date night = add_period t start_date night
  add_start t start_date day = t

  -- A range that ends in the day takes that day alone.
  unfoldable pub add_end : Totals → ℕ → Shift → Totals
  add_end t end_date day = add_period t end_date day
  add_end t end_date night = t

  unfoldable pub across_dates : ℕ → Shift → ℕ → Shift → Totals
  across_dates start_date start_shift end_date end_shift =
      let t = add_end (add_start no_movement start_date start_shift) end_date end_shift in
      if leb (mid_from start_date start_shift) (mid_to end_date end_shift)
      then add_dates t (mid_from start_date start_shift) (mid_to end_date end_shift)
      else t

  -- `_movement_between_periods`
  unfoldable pub movement_between_periods : ℕ → Shift → ℕ → Shift → Totals
  movement_between_periods start_date start_shift end_date end_shift =
      let legacy = legacy_stored_movement_in_window start_date start_shift end_date end_shift in
      if ltb (sort_key end_date end_shift) (sort_key start_date start_shift)
      then no_movement
      else if start_date == end_date
      then add_legacy (add_periods no_movement start_date (shifts_of start_shift end_shift)) legacy
      else add_legacy (across_dates start_date start_shift end_date end_shift) legacy

-- `production + returns - issued`, on top of a balance
abbrev pub carry : ℤ → Totals → ℤ
carry balance t = balance +ℤ t.production +ℤ t.returns -ℤ t.issued

-- `figure.return_base_qty if figure is not None else 0`
abbrev pub legacy_return_of : Option DailyFigure → ℤ
legacy_return_of none = pos 0
legacy_return_of (some f) = f.return_base_qty

abbrev pub legacy_production_of : Option DailyFigure → ℤ
legacy_production_of none = pos 0
legacy_production_of (some f) = f.production_base_qty

abbrev pub stored_opening : Option DailyFigure → ℤ
stored_opening none = pos 0
stored_opening (some f) = f.opening_base_qty

abbrev pub or_zero : Option ℤ → ℤ
or_zero none = pos 0
or_zero (some n) = n

module _ (db : Database) where
  unfoldable pub closing_base_qty : DailyFigure → ℤ
  closing_base_qty f =
      compute_closing f.opening_base_qty
        (production_base_qty db f.product_id f.date f.shift f.production_base_qty)
        (return_base_qty db f.product_id f.date f.shift f.return_base_qty)
        (issued_base_qty db f.product_id f.date f.shift)

  unfoldable pub carried_from : DailyFigure → (product_id date : ℕ) → Shift → ℤ
  carried_from anchor product_id date shift = carry (closing_base_qty anchor) (
      movement_between_periods db product_id (next_period_date anchor.date anchor.shift)
        (next_period_shift anchor.shift) (prev_period_date date shift) (prev_period_shift shift))

  unfoldable pub carried_from_epoch : (product_id date : ℕ) → Shift → Option ℤ
  carried_from_epoch product_id date shift =
      if not (
        any_finalized_activity_at_or_before db product_id (prev_period_date date shift)
          (prev_period_shift shift))
      then none
      else let t =
          movement_between_periods db product_id epoch_date day (prev_period_date date shift)
            (prev_period_shift shift) in
        some (t.production +ℤ t.returns -ℤ t.issued)

  unfoldable pub get_prior_closing_base_qty : (product_id date : ℕ) → Shift → Option ℕ → Option ℤ
  get_prior_closing_base_qty product_id date shift exclude_id =
      elim (find_anchor_figure db product_id date shift exclude_id) [
        | none ↦ carried_from_epoch product_id date shift
        | some anchor ↦ some (carried_from anchor product_id date shift)
      ]

  unfoldable pub opening_base_qty_at : (product_id date : ℕ) → Shift → ℤ
  opening_base_qty_at product_id date shift =
      let figure = figure_at db product_id date shift in
      if is_trusted db figure
      then stored_opening figure
      else or_zero (get_prior_closing_base_qty product_id date shift (id_of figure))
