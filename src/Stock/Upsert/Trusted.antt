-- ===== src/Stock/Upsert/Trusted.antt =====
-- stock_service.py, `_is_trusted_anchor` and `opening_base_qty_at` on the row that a save has written.
use daily_figures.Common.{
  ℕ, ◌≡◌, refl, inl, inr, Bool, true, false, Option, none, some, Bool-cases, Option-cases,
}
use daily_figures.Records.{
  Shift, DailyFigure, OpeningSource, derived, manual_correction, initial_manual, legacy_inferred,
  legacy_migrated_opening, reset_created, ledger_cutover, is_anchor_eligible,
  is_unconditional_anchor,
}
use daily_figures.Stock.Database.{Database, AuditEntry}
use daily_figures.Stock.Queries.{
  produced, dispatched, adjusted, returned, any_finalized_activity_at_or_before,
}
use daily_figures.Stock.Anchor.{
  figure_at, is_trusted_anchor, find_anchor_figure, prev_period_date, prev_period_shift,
}
use daily_figures.Stock.Carry.{get_prior_closing_base_qty, carried_from_epoch, opening_base_qty_at}
use daily_figures.Stock.Upsert.{commit_row}

-- Which rows are trusted depends on the books alone, which a save does not touch.
pub is_trusted_anchor-commit :
    (db : Database) (figure : Option DailyFigure) (explicit_edit : Bool) (audit : AuditEntry)
    (saved f : DailyFigure)
    → is_trusted_anchor (commit_row db figure explicit_edit audit saved) f ≡ is_trusted_anchor db f
unfolding is_trusted_anchor any_finalized_activity_at_or_before produced dispatched adjusted
    returned
is_trusted_anchor-commit db figure explicit_edit audit saved f = refl

unconditional-eligible :
    (s : OpeningSource) → is_unconditional_anchor s ≡ true → is_anchor_eligible s ≡ true
unconditional-eligible derived h = absurd (cc)
unconditional-eligible initial_manual h = absurd (cc)
unconditional-eligible manual_correction h = refl
unconditional-eligible legacy_inferred h = absurd (cc)
unconditional-eligible legacy_migrated_opening h = refl
unconditional-eligible reset_created h = absurd (cc)
unconditional-eligible ledger_cutover h = refl

pub unconditional-trusted :
    (db : Database) (f : DailyFigure)
    → is_unconditional_anchor f.opening_stock_source ≡ true
    → is_trusted_anchor db f ≡ true
unfolding is_trusted_anchor
unconditional-trusted db f h = rw (unconditional-eligible _ h) (rw h)

-- A period with no balance carried into it has no activity before it.
pub no_prior-idle :
    (db : Database) (product_id date : ℕ) (shift : Shift) (exclude_id : Option ℕ)
    → get_prior_closing_base_qty db product_id date shift exclude_id ≡ none
    → any_finalized_activity_at_or_before db product_id
        (prev_period_date date shift)
        (prev_period_shift shift)
      ≡ false
unfolding get_prior_closing_base_qty carried_from_epoch
no_prior-idle db product_id date shift exclude_id e =
    elim (Option-cases (find_anchor_figure db product_id date shift exclude_id)) [
      | inr (a, found) ↦ cc (rw (found, get_prior_closing_base_qty) at e)
      | inl missing ↦
          elim (Bool-cases (
            any_finalized_activity_at_or_before db product_id (prev_period_date date shift)
              (prev_period_shift shift))) [
                | inr idle ↦ idle
                | inl active ↦ cc (
                    rw (active, carried_from_epoch) at
                      (rw (missing, get_prior_closing_base_qty) at e))
              ]
    ]

-- The first opening of a product is trusted where nothing is before it.
pub first-trusted :
    (db : Database) (f : DailyFigure) (product_id date : ℕ) (shift : Shift)
    → f.opening_stock_source ≡ initial_manual
    → (f.product_id ≡ product_id) × (f.date ≡ date) × (f.shift ≡ shift)
    → any_finalized_activity_at_or_before db product_id
        (prev_period_date date shift)
        (prev_period_shift shift)
      ≡ false
    → is_trusted_anchor db f ≡ true
unfolding is_trusted_anchor
first-trusted db f product_id date shift h (p, d, s) idle = rw (h, p, d, s) (rw idle)

-- The opening that is read back is that of the row, where the row is trusted.
pub opening_base_qty_at-trusted :
    (db : Database) (product_id date : ℕ) (shift : Shift) (f : DailyFigure)
    → figure_at db product_id date shift ≡ some f
    → is_trusted_anchor db f ≡ true
    → opening_base_qty_at db product_id date shift ≡ f.opening_base_qty
unfolding opening_base_qty_at
opening_base_qty_at-trusted db product_id date shift f found t = rw found (rw t)
