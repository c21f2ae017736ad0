-- ===== src/Stock/View.antt =====
-- stock_service.py, `daily_figure_view`: everything that one product's line of Daily Figures shows.
-- The names and the times of who entered the row are left out.
pub mod Continuity
use daily_figures.Common.{
  ℕ, ◌+◌, ◌*◌, Bool, true, false, ◌&&◌, not, Option, none, some, List, [], ◌∷◌, String, ℤ, pos, neg,
  abs, is_negative, ◌+ℤ◌, ltb, leb, ◌==◌, if◌then◌else◌, Result, ok, raise, ◌>>=◌, filter_where,
}
use daily_figures.Packaging.{PackagingRule, PackagingError, Quantity, from_base_units}
use daily_figures.Records.{
  Shift, day, night, sort_key, DailyFigure, LedgerCutover, is_activated, Product,
  current_packaging_rule,
}
use daily_figures.Stock.Database.{Database}
use daily_figures.Stock.Queries.{
  issued_base_qty, return_base_qty, production_base_qty, returns_finalized_base_qty,
  production_finalized_base_qty, dispatch_issued_base_qty, adjustment_total_base_qty,
}
use daily_figures.Stock.Anchor.{figure_at, id_of, is_trusted}
use daily_figures.Stock.Carry.{
  compute_closing, get_prior_closing_base_qty, legacy_return_of, legacy_production_of,
  stored_opening, or_zero,
}

-- The quantities of the view, in pieces.
pub record FigureNumbers : Type 0 where
  pub opening_base : ℤ
  pub opening_editable : Bool
  pub production_base : ℤ
  pub return_base : ℤ
  pub issued : ℤ
  pub closing_base : ℤ
  pub legacy_return : ℤ
  pub legacy_production : ℤ

abbrev pub is_none : Option ℤ → Bool
is_none none = true
is_none (some _) = false

unfoldable pub figure_numbers : Database → (product_id date : ℕ) → Shift → FigureNumbers
figure_numbers db product_id date shift =
    let figure = figure_at db product_id date shift in
    let issued = issued_base_qty db product_id date shift in
    let return_base = return_base_qty db product_id date shift (legacy_return_of figure) in
    let production_base =
      production_base_qty db product_id date shift (legacy_production_of figure) in
    let prior = get_prior_closing_base_qty db product_id date shift (id_of figure) in
    let opening_base = if is_trusted db figure then stored_opening figure else or_zero prior in
    record {
      opening_base = opening_base;
      opening_editable = is_none prior;
      production_base = production_base;
      return_base = return_base;
      issued = issued;
      closing_base = compute_closing opening_base production_base return_base issued;
      legacy_return = legacy_return_of figure;
      legacy_production = legacy_production_of figure;
    }

-- The dict of `_split_or_none`: at most one part is negative.
pub record SignedQuantity : Type 0 where
  pub cartons : ℤ
  pub packs : ℤ
  pub pieces : ℤ

abbrev with_sign : Bool → Quantity → SignedQuantity
with_sign false q = record { cartons = pos q.cartons; packs = pos q.packs; pieces = pos q.pieces }
with_sign true q =
    if not (q.cartons == 0)
    then record { cartons = neg (pos q.cartons); packs = pos q.packs; pieces = pos q.pieces }
    else if not (q.packs == 0)
    then record { cartons = pos q.cartons; packs = neg (pos q.packs); pieces = pos q.pieces }
    else record { cartons = pos q.cartons; packs = pos q.packs; pieces = neg (pos q.pieces) }

unfoldable pub split_or_none : ℤ → PackagingRule → Result PackagingError SignedQuantity
split_or_none base_qty rule = do
  q ← from_base_units (pos (abs base_qty)) rule
  ok (with_sign (is_negative base_qty) q)

-- `{"base_qty": ..., **split} if rule else None`
pub record Shown : Type 0 where
  pub base_qty : ℤ
  pub split : SignedQuantity

show_quantity : Option PackagingRule → ℤ → Result PackagingError (Option Shown)
show_quantity none base_qty = ok none
show_quantity (some rule) base_qty = do
  split ← split_or_none base_qty rule
  ok (some (record { base_qty = base_qty; split = split }))

-- ledger_cutover_service.py, `get_active_cutover()`: `max` returns the first of equals.
abbrev pub cutover_key : LedgerCutover → ℕ
cutover_key c = sort_key c.effective_date c.effective_shift

unfoldable pub latest_cutover : List LedgerCutover → Option LedgerCutover
latest_cutover [] = none
latest_cutover (c ∷ cs) = elim (latest_cutover cs) [
  | none ↦ some c
  | some later ↦ if leb (cutover_key later) (cutover_key c) then some c else some later
]

unfoldable pub get_active_cutover : Database → Option LedgerCutover
unfolding latest_cutover
get_active_cutover db = latest_cutover (filter_where (λ c. is_activated c.status) db.cutovers)

abbrev is_before_cutover : ℕ → Option LedgerCutover → Bool
is_before_cutover key none = false
is_before_cutover key (some c) = ltb key (cutover_key c)

pub record DailyFigureView : Type 0 where
  pub product_id : ℕ
  pub date : ℕ
  pub shift : Shift
  pub has_entry : Bool
  pub opening_editable : Bool
  pub is_pre_cutover : Bool
  pub cutover_id : Option ℕ
  pub packaging_rule : Option PackagingRule
  pub opening : Option Shown
  pub return_ : Option Shown
  pub production : Option Shown
  pub issued : Option Shown
  pub closing : Option Shown
  pub notes : Option String
  pub from_returns_book : Option ℤ
  pub legacy_return : Option ℤ
  pub from_production_book : Option ℤ
  pub legacy_production : Option ℤ
  pub from_dispatches : Option ℤ
  pub from_adjustments : Option ℤ

-- `... if rule else None`
abbrev where_ruled : Option PackagingRule → ℤ → Option ℤ
where_ruled none n = none
where_ruled (some rule) n = some n

-- `returns_finalized_base_qty(product.id, date) if shift == SHIFT_DAY else 0`
abbrev returns_book_part : Database → (product_id date : ℕ) → Shift → ℤ
returns_book_part db product_id date day = returns_finalized_base_qty db product_id date
returns_book_part db product_id date night = pos 0

abbrev has_figure : Option DailyFigure → Bool
has_figure none = false
has_figure (some _) = true

abbrev cutover_id_of : Option DailyFigure → Option ℕ
cutover_id_of none = none
cutover_id_of (some f) = f.cutover_id

abbrev notes_of : Option DailyFigure → Option String
notes_of none = none
notes_of (some f) = f.notes

unfoldable pub daily_figure_view :
    Database → (now : ℕ) → Product → (date : ℕ) → Shift → Result PackagingError DailyFigureView
unfolding show_quantity
daily_figure_view db now product date shift = do
  let rule = current_packaging_rule product now
  let figure = figure_at db product.id date shift
  let numbers = figure_numbers db product.id date shift
  opening ← show_quantity rule numbers.opening_base
  return_ ← show_quantity rule numbers.return_base
  production ← show_quantity rule numbers.production_base
  issued ← show_quantity rule numbers.issued
  closing ← show_quantity rule numbers.closing_base
  ok (record {
    product_id = product.id;
    date = date;
    shift = shift;
    has_entry = has_figure figure;
    opening_editable = numbers.opening_editable;
    is_pre_cutover = is_before_cutover (sort_key date shift) (get_active_cutover db);
    cutover_id = cutover_id_of figure;
    packaging_rule = rule;
    opening = opening;
    return_ = return_;
    production = production;
    issued = issued;
    closing = closing;
    notes = notes_of figure;
    from_returns_book = where_ruled rule (returns_book_part db product.id date shift);
    legacy_return = where_ruled rule numbers.legacy_return;
    from_production_book =
        where_ruled rule (production_finalized_base_qty db product.id date shift);
    legacy_production = where_ruled rule numbers.legacy_production;
    from_dispatches = where_ruled rule (dispatch_issued_base_qty db product.id date shift);
    from_adjustments = where_ruled rule (adjustment_total_base_qty db product.id date shift);
  })
