-- ===== src/Stock/Database.antt =====
-- The tables that stock_service.py queries, and the rows that the filters of its queries share.
use text.Mathlib.Text.{◌==◌ as str_eq}
use daily_figures.Common.{
  ℕ, Bool, true, false, not, Option, ◌&&◌, ◌||◌, none, some, List, [], ◌∷◌, String, ℤ, ◌==◌,
  if◌then◌else◌,
}
use daily_figures.Records.{
  Shift, Line, Dispatch, ProductionRecord, ReturnRecord, StockAdjustment, DailyFigure,
  LedgerCutover, OpeningSource, is_finalized,
}

-- What `record_audit` is given for a corrected opening.
pub record AuditEntry : Type 0 where
  pub actor : ℕ
  pub entity_id : ℕ
  pub before_base_qty : Option ℤ
  pub before_source : OpeningSource
  pub after_base_qty : ℤ
  pub after_source : OpeningSource
  pub reason : Option String

-- `strftime_w` is SQLite's `strftime('%w', date)`, which the engine supplies: 0 is Sunday.
-- `next_id` is the engine's choice of a key for the next row of daily_figures.
pub record Database : Type 0 where
  pub dispatches : List Dispatch
  pub productions : List ProductionRecord
  pub returns : List ReturnRecord
  pub adjustments : List StockAdjustment
  pub figures : List DailyFigure
  pub cutovers : List LedgerCutover
  pub strftime_w : ℕ → ℕ
  pub next_id : ℕ
  pub can_edit_opening : Bool
  pub audits : List AuditEntry

-- A row of a join: one product's quantity in one period.
pub record Movement : Type 0 where
  pub date : ℕ
  pub shift : Shift
  pub product_id : ℕ
  pub base_qty : ℤ

abbrev pub line_movements : ℕ → Shift → List Line → List Movement
line_movements date shift [] = []
line_movements date shift (l ∷ ls) =
    record { date = date; shift = shift; product_id = l.product_id; base_qty = l.base_unit_qty }
    ∷ line_movements date shift ls

-- returns_service.py: `is_metro_sales_return`
unfoldable pub is_metro_sales_return : ReturnRecord → Bool
is_metro_sales_return r = elim r.returned_by_customer [
  | none ↦ false
  | some customer ↦ elim customer.sales_category [
    | none ↦ false
    | some name ↦ str_eq name "Metro Sales"
  ]
]

-- returns_service.py: `is_return_stock_posting_eligible`, with Python's `date.weekday`, 0 for Monday.
unfoldable pub is_return_stock_posting_eligible : (weekday : ℕ → ℕ) → ReturnRecord → Bool
unfolding is_metro_sales_return
is_return_stock_posting_eligible weekday r =
    if not (is_finalized r.status)
    then false
    else if not (is_metro_sales_return r)
    then true
    else weekday r.date == 0

-- returns_service.py: `stock_posting_return_filter`
unfoldable pub stock_posting_return_filter : (strftime_w : ℕ → ℕ) → ReturnRecord → Bool
unfolding is_metro_sales_return
stock_posting_return_filter strftime_w r =
    is_finalized r.status && (not (is_metro_sales_return r) || strftime_w r.date == 1)
