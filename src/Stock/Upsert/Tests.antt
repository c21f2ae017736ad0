-- ===== src/Stock/Upsert/Tests.antt =====
-- Saves of one product's line: an explicit correction of a day, and a routine save over a corrected
-- row.
use daily_figures.Common.{◌≡◌, refl, inl, true, none, some, pos, int_laws, ap, ok, arith}
use daily_figures.Packaging.{normalize, normalize_counts, roll_up, to_base_units, count_base_units}
use daily_figures.Records.{DailyFigure, manual_correction, day, current_packaging_rule}
use daily_figures.Stock.Database.{Database}
use daily_figures.Stock.Database.{stock_posting_return_filter, is_metro_sales_return}
use daily_figures.Stock.Queries.{
  adjusted, adjustment_total_base_qty, adjustment_total_base_qty_range, dispatch_issued_base_qty,
  dispatch_issued_base_qty_range, dispatched, issued_base_qty, produced, production_base_qty,
  production_finalized_base_qty, production_finalized_base_qty_range, return_base_qty, returned,
  returns_finalized_base_qty, returns_finalized_base_qty_range,
}
use daily_figures.Stock.Anchor.{figure_at, find_anchor_figure, is_trusted_anchor}
use daily_figures.Stock.Anchor.Latest.{AreDistinct}
use daily_figures.Stock.Carry.{
  opening_base_qty_at, get_prior_closing_base_qty, carried_from, carried_from_epoch,
  closing_base_qty, movement_between_periods, legacy_stored_movement_in_window, legacy_sum,
  across_dates, add_dates, add_end, add_start, add_period, add_periods, add_legacy, compute_closing,
}
use daily_figures.Stock.Tests.{boxes, juice, chief, books, books-AreDistinct}
use daily_figures.Stock.Upsert.{
  OpeningInput, Submitted, submit, finish_row, set_opening, new_figure, commit_row,
  correction_audit, opening_locked_at, save_opening, write_opening, upsert_daily_figure,
}
use daily_figures.Stock.Upsert.Rows.{AreBelow}
use daily_figures.Stock.Upsert.Saved.{upsert_daily_figure-AreDistinct}
use daily_figures.Stock.Upsert.Reading.{opening_base_qty_at-save_submitted}

abbrev five_cartons : OpeningInput
five_cartons = record { cartons = pos 5; packs = pos 0; pieces = pos 0 }

abbrev counted : Submitted
counted = record { quantity = record { cartons = 5; packs = 0; pieces = 0 }; base_qty = 600 }

abbrev corrected_row : DailyFigure
corrected_row = finish_row boxes none chief (
    set_opening (new_figure books 7 101 day chief) (record { cartons = 5; packs = 0; pieces = 0 })
      (pos 600) manual_correction true)

abbrev after_correction : Database
after_correction =
    commit_row books none true
      (correction_audit (some (pos 620)) none (some "recount") chief corrected_row) corrected_row

rule_of_juice : current_packaging_rule juice 9 ≡ some boxes
unfolding current_packaging_rule
rule_of_juice = refl

submit-counted : submit (some five_cartons) boxes ≡ ok (some counted)
unfolding normalize normalize_counts roll_up to_base_units count_base_units
submit-counted = refl

books-AreBelow : AreBelow books.next_id books.figures
books-AreBelow = (omega arith, tt)

locked_at_620 : opening_locked_at books 7 101 day ≡ some (pos 620)
unfolding get_prior_closing_base_qty find_anchor_figure is_trusted_anchor carried_from
    carried_from_epoch closing_base_qty movement_between_periods legacy_stored_movement_in_window
    legacy_sum across_dates add_dates add_end add_start add_period add_periods add_legacy
    compute_closing adjusted adjustment_total_base_qty adjustment_total_base_qty_range
    dispatch_issued_base_qty dispatch_issued_base_qty_range dispatched issued_base_qty produced
    production_base_qty production_finalized_base_qty production_finalized_base_qty_range
    return_base_qty returned returns_finalized_base_qty returns_finalized_base_qty_range
    stock_posting_return_filter is_metro_sales_return
locked_at_620 = ap some (omega int_laws)

correction_saved :
    upsert_daily_figure books 9 juice 101 day (some five_cartons) none chief true (some "recount")
    ≡ ok (after_correction, corrected_row)
unfolding upsert_daily_figure save_opening write_opening
correction_saved =
    rw (rule_of_juice, upsert_daily_figure) (rw submit-counted (rw locked_at_620 refl))

upsert_daily_figure-AreDistinct_example :
    AreDistinct after_correction.figures
    × AreBelow after_correction.next_id after_correction.figures
    × (figure_at after_correction 7 101 day ≡ some corrected_row)
upsert_daily_figure-AreDistinct_example =
    upsert_daily_figure-AreDistinct books 9 juice 101 day (some five_cartons) none chief true
      (some "recount") after_correction corrected_row books-AreDistinct books-AreBelow
      correction_saved

opening_base_qty_at-save_submitted_example :
    opening_base_qty_at after_correction 7 101 day ≡ pos 600
opening_base_qty_at-save_submitted_example =
    opening_base_qty_at-save_submitted books 9 boxes juice 101 day (some five_cartons) counted none
      chief true (some "recount") after_correction corrected_row books-AreDistinct books-AreBelow
      rule_of_juice submit-counted (inl refl) correction_saved
