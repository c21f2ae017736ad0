-- ===== src/Records/Books.antt =====
-- webapp/models/dispatch.py, production_record.py, return_record.py and daily_figure.py: shifts,
-- the life cycle of a book entry, and the rows of the books.
use daily_figures.Common.{ℕ, ◌+◌, ◌*◌, Bool, true, false, Option, List, String, ℤ}
use daily_figures.Packaging.{Quantity}

-- `SHIFTS`: every writer refuses another text.
pub data Shift : Type 0 where
  day night : Shift

abbrev pub same_shift : Shift → Shift → Bool
same_shift day day = true
same_shift night night = true
same_shift _ _ = false

-- `SHIFT_ORDER`
abbrev pub shift_order : Shift → ℕ
shift_order day = 0
shift_order night = 1

-- `_sort_key`: the text "date-order" of a fixed-width date and a digit, as a number.
abbrev pub sort_key : ℕ → Shift → ℕ
sort_key date shift = date * 10 + shift_order shift

pub data Status : Type 0 where
  draft finalized void : Status

abbrev pub is_finalized : Status → Bool
is_finalized finalized = true
is_finalized _ = false

abbrev pub is_draft : Status → Bool
is_draft draft = true
is_draft _ = false

abbrev pub is_void : Status → Bool
is_void void = true
is_void _ = false

-- A product line, as `build_line` makes it.
pub record Line : Type 0 where
  pub product_id : ℕ
  pub quantity : Quantity
  pub base_unit_qty : ℤ
  pub packaging_rule_id : ℕ

pub record Dispatch : Type 0 where
  pub id : ℕ
  pub date : ℕ
  pub shift : Shift
  pub status : Status
  pub lines : List Line

pub record ProductionRecord : Type 0 where
  pub id : ℕ
  pub date : ℕ
  pub shift : Shift
  pub remarks : Option String
  pub status : Status
  pub created_by : Option ℕ
  pub updated_by : Option ℕ
  pub finalized_by : Option ℕ
  pub finalized_at : Option ℕ
  pub voided_by : Option ℕ
  pub voided_at : Option ℕ
  pub void_reason : Option String
  pub lines : List Line

-- A customer's sales category, by its name.
pub record Customer : Type 0 where
  pub id : ℕ
  pub sales_category : Option String

pub record ReturnRecord : Type 0 where
  pub id : ℕ
  pub date : ℕ
  pub status : Status
  pub returned_by_customer : Option Customer
  pub lines : List Line

pub record StockAdjustment : Type 0 where
  pub id : ℕ
  pub date : ℕ
  pub shift : Shift
  pub product_id : ℕ
  pub delta_base_qty : ℤ
  pub reason : String
  pub created_by : ℕ

-- `OPENING_STOCK_SOURCES`
pub data OpeningSource : Type 0 where
  derived initial_manual manual_correction legacy_inferred : OpeningSource
  legacy_migrated_opening reset_created ledger_cutover : OpeningSource

-- `OPENING_STOCK_SOURCES_ANCHOR_ELIGIBLE`
abbrev pub is_anchor_eligible : OpeningSource → Bool
is_anchor_eligible derived = false
is_anchor_eligible reset_created = false
is_anchor_eligible _ = true

-- `OPENING_STOCK_SOURCES_UNCONDITIONAL_ANCHOR`
abbrev pub is_unconditional_anchor : OpeningSource → Bool
is_unconditional_anchor manual_correction = true
is_unconditional_anchor legacy_migrated_opening = true
is_unconditional_anchor ledger_cutover = true
is_unconditional_anchor _ = false

pub record DailyFigure : Type 0 where
  pub id : ℕ
  pub date : ℕ
  pub shift : Shift
  pub product_id : ℕ
  pub opening_cartons : ℕ
  pub opening_packs : ℕ
  pub opening_pieces : ℕ
  pub opening_base_qty : ℤ
  pub opening_stock_is_override : Bool
  pub opening_stock_source : OpeningSource
  pub cutover_id : Option ℕ
  pub return_base_qty : ℤ
  pub production_base_qty : ℤ
  pub packaging_rule_id : ℕ
  pub notes : Option String
  pub created_by : Option ℕ
  pub updated_by : Option ℕ

-- webapp/models/ledger_cutover.py
pub data CutoverStatus : Type 0 where
  draft verified activated cancelled : CutoverStatus

abbrev pub is_activated : CutoverStatus → Bool
is_activated CutoverStatus.activated = true
is_activated _ = false

-- The counted balance of a product. The times of its creation are left out.
pub record Balance : Type 0 where
  pub product_id : ℕ
  pub quantity : Quantity
  pub base_qty : ℕ
  pub created_by : Option ℕ
  pub updated_by : Option ℕ
  pub updated_at : ℕ

pub record LedgerCutover : Type 0 where
  pub id : ℕ
  pub effective_date : ℕ
  pub effective_shift : Shift
  pub status : CutoverStatus
  pub reason : Option String
  pub created_by : Option ℕ
  pub verified_by : Option ℕ
  pub verified_at : Option ℕ
  pub activated_by : Option ℕ
  pub activated_at : Option ℕ
  pub cancelled_by : Option ℕ
  pub cancelled_at : Option ℕ
  pub updated_at : ℕ
  pub balances : List Balance
