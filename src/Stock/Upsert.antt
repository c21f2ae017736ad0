-- ===== src/Stock/Upsert.antt =====
-- stock_service.py, `upsert_daily_figure`: saving one product's line of Daily Figures, with
-- `create_adjustment` and `delete_adjustment`.
-- `PackagingError.zero_division` stands for Python's ZeroDivisionError, which nothing here catches.
pub mod Provenance
pub mod Trusted
pub mod Reading
pub mod Rows
pub mod Stored
pub mod Saved
mod Tests
use text.Mathlib.Text.{◌==◌ as str_eq}
use daily_figures.Common.{
  ℕ, ◌+◌, Bool, true, false, ◌&&◌, ◌||◌, not, Option, none, some, List, [], ◌∷◌, ◌++◌, String, ℤ,
  pos, is_zero, ◌==◌, if◌then◌else◌, Result, ok, raise, ◌>>=◌, ◌>>◌, raise_if, map_error,
}
use daily_figures.Packaging.{
  PackagingRule, rule_id, PackagingError, negative_part, no_pack_unit, negative_total,
  zero_division, Quantity, normalize, to_base_units, from_base_units,
}
use daily_figures.Records.{
  Shift, DailyFigure, OpeningSource, derived, initial_manual, manual_correction,
  is_unconditional_anchor, Product, current_packaging_rule, User, is_elevated, is_operator,
  StockAdjustment,
}
use daily_figures.Stock.Database.{Database, AuditEntry}
use daily_figures.Stock.Anchor.{figure_at, id_of}
use daily_figures.Stock.Carry.{get_prior_closing_base_qty}

-- `StockError`, by its message.
pub data StockError : Type 0 where
  no_packaging_rule opening_required reason_required : StockError
  adjustment_reason_required zero_delta delete_reason_required : StockError
  packaging : PackagingError → StockError

-- The truth of an optional text: neither None nor empty.
abbrev pub is_given : Option String → Bool
is_given none = false
is_given (some text) = not (str_eq text "")

pub record OpeningInput : Type 0 where
  pub cartons : ℤ
  pub packs : ℤ
  pub pieces : ℤ

-- The submitted opening, normalised, and its total.
pub record Submitted : Type 0 where
  pub quantity : Quantity
  pub base_qty : ℕ

abbrev pub submit : Option OpeningInput → PackagingRule → Result StockError (Option Submitted)
submit none rule = ok none
submit (some o) rule = do
  q ← map_error packaging (normalize o.cartons o.packs o.pieces rule)
  n ← map_error packaging (to_base_units (pos q.cartons) (pos q.packs) (pos q.pieces) rule)
  ok (some (record { quantity = q; base_qty = n }))

abbrev pub is_submitted : Option Submitted → Bool
is_submitted none = false
is_submitted (some _) = true

-- `can_explicitly_edit`
abbrev pub can_explicitly_edit : Database → User → Bool
can_explicitly_edit db user =
    is_elevated user.role || (is_operator user.role && db.can_edit_opening)

-- `explicit_edit`
abbrev pub is_explicit_edit : Database → User → Bool → Option Submitted → Bool
is_explicit_edit db user explicitly_edited submitted =
    explicitly_edited && (can_explicitly_edit db user && is_submitted submitted)

-- `existing_trusted`
abbrev pub is_existing_trusted : Option DailyFigure → Bool
is_existing_trusted none = false
is_existing_trusted (some f) = is_unconditional_anchor f.opening_stock_source

abbrev pub source_of : Option DailyFigure → OpeningSource
source_of none = derived
source_of (some f) = f.opening_stock_source

abbrev pub stored_or : ℤ → Option DailyFigure → ℤ
stored_or locked none = locked
stored_or locked (some f) = f.opening_base_qty

-- The new source and opening of a period, by what is locked, submitted and stored.
abbrev pub choose_opening :
    (opening_locked : Option ℤ) (submitted : Option Submitted) (explicit_edit : Bool)
    (reason : Option String) (figure : Option DailyFigure)
    → Result StockError (OpeningSource × ℤ)
choose_opening none none explicit_edit reason figure = raise opening_required
choose_opening none (some s) explicit_edit reason figure = ok (initial_manual, pos s.base_qty)
choose_opening (some locked) (some s) true reason figure =
    if not (is_given reason) then raise reason_required else ok (manual_correction, pos s.base_qty)
choose_opening (some locked) submitted explicit_edit reason figure =
    if is_existing_trusted figure
    then ok (source_of figure, stored_or locked figure)
    else ok (derived, locked)

abbrev pub no_quantity : Quantity
no_quantity = record { cartons = 0; packs = 0; pieces = 0 }

abbrev pub quantity_of : Option Submitted → Quantity
quantity_of none = no_quantity
quantity_of (some s) = s.quantity

-- The row that a first save of a period makes.
abbrev pub new_figure : Database → (product_id date : ℕ) → Shift → User → DailyFigure
new_figure db product_id date shift user = record {
  id = db.next_id;
  date = date;
  shift = shift;
  product_id = product_id;
  opening_cartons = 0;
  opening_packs = 0;
  opening_pieces = 0;
  opening_base_qty = pos 0;
  opening_stock_is_override = false;
  opening_stock_source = derived;
  cutover_id = none;
  return_base_qty = pos 0;
  production_base_qty = pos 0;
  packaging_rule_id = 0;
  notes = none;
  created_by = some user.id;
  updated_by = none;
}

abbrev pub figure_or_new :
    Database → (product_id date : ℕ) → Shift → User → Option DailyFigure → DailyFigure
figure_or_new db product_id date shift user none = new_figure db product_id date shift user
figure_or_new db product_id date shift user (some f) = f

-- `except PackagingError: split = (0, 0, 0)`
abbrev pub split_or_zero : Result PackagingError Quantity → Result StockError Quantity
split_or_zero (ok q) = ok q
split_or_zero (raise zero_division) = raise (packaging zero_division)
split_or_zero (raise _) = ok no_quantity

abbrev pub set_opening : DailyFigure → Quantity → ℤ → OpeningSource → Bool → DailyFigure
set_opening f q base_qty source is_override = record f {
  opening_cartons = q.cartons;
  opening_packs = q.packs;
  opening_pieces = q.pieces;
  opening_base_qty = base_qty;
  opening_stock_source = source;
  opening_stock_is_override = is_override;
}

abbrev pub is_derived : OpeningSource → Bool
is_derived derived = true
is_derived _ = false

abbrev pub is_locked : Option ℤ → Bool
is_locked none = false
is_locked (some _) = true

unfoldable write_opening :
    PackagingRule
    → (keep : Bool) → OpeningSource × ℤ
    → Option Submitted
    → DailyFigure
    → Result StockError DailyFigure
write_opening rule keep (source, opening_base) submitted f =
    if keep
    then ok f
    else if is_derived source
    then (split_or_zero (from_base_units opening_base rule) >>= λ q.
        ok (set_opening f q opening_base derived false))
    else ok (set_opening f (quantity_of submitted) opening_base source true)

-- A row is written back in its place, or added.
abbrev pub put_figure : DailyFigure → List DailyFigure → List DailyFigure
put_figure f [] = f ∷ []
put_figure f (g ∷ gs) = if g.id == f.id then f ∷ gs else g ∷ put_figure f gs

abbrev pub next_id_after : Option DailyFigure → ℕ → ℕ
next_id_after none id = id + 1
next_id_after (some _) id = id

abbrev before_base_qty : Option ℤ → Option DailyFigure → Option ℤ
before_base_qty locked none = locked
before_base_qty locked (some f) = some f.opening_base_qty

-- The row as it is committed.
abbrev pub finish_row : PackagingRule → (notes : Option String) → User → DailyFigure → DailyFigure
finish_row rule notes user written = record written {
  packaging_rule_id = rule_id rule;
  notes = notes;
  updated_by = some user.id;
}

abbrev pub correction_audit :
    Option ℤ → Option DailyFigure → Option String → User → DailyFigure → AuditEntry
correction_audit opening_locked figure reason user saved = record {
  actor = user.id;
  entity_id = saved.id;
  before_base_qty = before_base_qty opening_locked figure;
  before_source = source_of figure;
  after_base_qty = saved.opening_base_qty;
  after_source = saved.opening_stock_source;
  reason = reason;
}

-- The commit: the row, and the audit entry of an explicit correction.
abbrev pub commit_row :
    Database → Option DailyFigure → (explicit_edit : Bool) → AuditEntry → DailyFigure → Database
commit_row db figure explicit_edit audit saved = record db {
  figures = put_figure saved db.figures;
  next_id = next_id_after figure db.next_id;
  audits = if explicit_edit then audit ∷ db.audits else db.audits;
}

-- `opening_locked`, on the row of the period where there is one.
abbrev pub opening_locked_at : Database → (product_id date : ℕ) → Shift → Option ℤ
opening_locked_at db product_id date shift =
    get_prior_closing_base_qty db product_id date shift (id_of (figure_at db product_id date shift))

-- A routine save of a trusted row with a balance carried into it leaves its opening alone.
abbrev pub is_kept : Option DailyFigure → (explicit_edit : Bool) → Option ℤ → Bool
is_kept figure explicit_edit opening_locked =
    is_existing_trusted figure && (not explicit_edit && is_locked opening_locked)

unfoldable save_opening :
    Database
    → PackagingRule
    → Product
    → (date : ℕ) → Shift
    → (figure : Option DailyFigure) → (opening_locked : Option ℤ) → Option Submitted
    → (notes : Option String) → User
    → (explicit_edit : Bool) → (reason : Option String) → Result StockError (Database × DailyFigure)
unfolding write_opening
save_opening db rule product date shift figure opening_locked submitted notes user explicit_edit
      reason =
    do
      chosen ← choose_opening opening_locked submitted explicit_edit reason figure
      written ←
          write_opening rule (is_kept figure explicit_edit opening_locked) chosen submitted
            (figure_or_new db product.id date shift user figure)
      let saved = finish_row rule notes user written
      let audit = correction_audit opening_locked figure reason user saved
      ok (commit_row db figure explicit_edit audit saved, saved)

unfoldable pub upsert_daily_figure :
    Database
    → (now : ℕ) → Product
    → (date : ℕ) → Shift
    → Option OpeningInput
    → (notes : Option String) → User
    → (opening_stock_explicitly_edited : Bool) → (opening_correction_reason : Option String)
    → Result StockError (Database × DailyFigure)
unfolding save_opening
upsert_daily_figure db now product date shift opening notes user explicitly_edited reason =
    elim (current_packaging_rule product now) [
      | none ↦ raise no_packaging_rule
      | some rule ↦ do
        submitted ← submit opening rule
        save_opening db rule product date shift (figure_at db product.id date shift)
            (opening_locked_at db product.id date shift) submitted notes user
            (is_explicit_edit db user explicitly_edited submitted) reason
    ]

-- `id` is the key that the engine gives the row.
unfoldable pub create_adjustment :
    Database
    → (id product_id date : ℕ) → Shift
    → (delta_base_qty : ℤ) → (reason : Option String) → User
    → Result StockError (Database × StockAdjustment)
create_adjustment db id product_id date shift delta_base_qty none user =
    raise adjustment_reason_required
create_adjustment db id product_id date shift delta_base_qty (some reason) user = do
  raise_if (not (is_given (some reason))) adjustment_reason_required
  raise_if (is_zero delta_base_qty) zero_delta
  let adjustment : StockAdjustment = record {
    id = id;
    date = date;
    shift = shift;
    product_id = product_id;
    delta_base_qty = delta_base_qty;
    reason = reason;
    created_by = user.id;
  }
  ok (record db { adjustments = adjustment ∷ db.adjustments }, adjustment)

abbrev pub remove_adjustment : ℕ → List StockAdjustment → List StockAdjustment
remove_adjustment id [] = []
remove_adjustment id (a ∷ rest) = if a.id == id then rest else a ∷ remove_adjustment id rest

unfoldable pub delete_adjustment :
    Database → StockAdjustment → (reason : Option String) → Result StockError Database
delete_adjustment db adjustment reason = do
  raise_if (not (is_given reason)) delete_reason_required
  ok (record db { adjustments = remove_adjustment adjustment.id db.adjustments })
