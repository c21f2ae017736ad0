-- ===== src/Stock/Tests.antt =====
-- A product over two days: an opening that was corrected on day 100, a production entry of that night
-- and a dispatch of that day.
use daily_figures.Common.{
  ◌+◌, ◌%◌, ◌≤◌, ◌≡◌, refl, inl, true, false, none, some, [], ◌∷◌, pos, arith,
}
use daily_figures.Packaging.{PackagingRule, pack_tier, Quantity}
use daily_figures.Records.{
  User, manager, Product, day, night, finalized, Dispatch, ProductionRecord, ReturnRecord,
  DailyFigure, manual_correction, sort_key,
}
use daily_figures.Stock.Database.{
  Database, is_return_stock_posting_eligible, stock_posting_return_filter,
}
use daily_figures.Stock.Anchor.{figure_at, figure_key, id_of, is_trusted_anchor, find_anchor_figure}
use daily_figures.Stock.Anchor.Latest.{AreDistinct, IsAnchorBefore, find_anchor_figure_latest}
use daily_figures.Stock.Carry.{movement_between_periods}
use daily_figures.Stock.Carry.Movement.{movement_between_periods-eq}
use daily_figures.Stock.Window.{book_window, legacy_window, ◌⊕◌}
use daily_figures.Stock.View.{figure_numbers}
use daily_figures.Stock.View.Continuity.{opening_next-eq-closing}
use daily_figures.Stock.Eligibility.{stock_posting_return_filter-eq}

abbrev pub boxes : PackagingRule
boxes = pack_tier 1 12 10

abbrev pub juice : Product
juice = record {
  id = 7;
  active = true;
  packaging_rules = record { rule = boxes; effective_from = 0; effective_to = none } ∷ [];
}

abbrev pub chief : User
chief = record { id = 3; username = "chief"; role = manager }

abbrev no_quantity : Quantity
no_quantity = record { cartons = 0; packs = 0; pieces = 0 }

abbrev pub corrected : DailyFigure
corrected = record {
  id = 1;
  date = 100;
  shift = day;
  product_id = 7;
  opening_cartons = 4;
  opening_packs = 2;
  opening_pieces = 0;
  opening_base_qty = pos 500;
  opening_stock_is_override = true;
  opening_stock_source = manual_correction;
  cutover_id = none;
  return_base_qty = pos 0;
  production_base_qty = pos 0;
  packaging_rule_id = 1;
  notes = none;
  created_by = some 3;
  updated_by = none;
}

abbrev night_production : ProductionRecord
night_production = record {
  id = 1;
  date = 100;
  shift = night;
  remarks = none;
  status = finalized;
  created_by = some 3;
  updated_by = none;
  finalized_by = some 3;
  finalized_at = some 1;
  voided_by = none;
  voided_at = none;
  void_reason = none;
  lines =
      record {
        product_id = 7;
        quantity = record { cartons = 2; packs = 0; pieces = 0 };
        base_unit_qty = pos 240;
        packaging_rule_id = 1;
      }
      ∷ [];
}

abbrev day_dispatch : Dispatch
day_dispatch = record {
  id = 1;
  date = 100;
  shift = day;
  status = finalized;
  lines =
      record {
        product_id = 7;
        quantity = record { cartons = 1; packs = 0; pieces = 0 };
        base_unit_qty = pos 120;
        packaging_rule_id = 1;
      }
      ∷ [];
}

abbrev pub books : Database
books = record {
  dispatches = day_dispatch ∷ [];
  productions = night_production ∷ [];
  returns = [];
  adjustments = [];
  figures = corrected ∷ [];
  cutovers = [];
  strftime_w = λ date. (date % 7 + 1) % 7;
  next_id = 2;
  can_edit_opening = false;
  audits = [];
}

pub books-AreDistinct : AreDistinct books.figures
books-AreDistinct = (tt, tt)

corrected-trusted : is_trusted_anchor books corrected ≡ true
unfolding is_trusted_anchor
corrected-trusted = refl

opening_next-eq-closing_example :
    (figure_numbers books 7 100 night).opening_base ≡ (figure_numbers books 7 100 day).closing_base
opening_next-eq-closing_example =
    opening_next-eq-closing books 7 100 day books-AreDistinct (omega arith) (inl corrected-trusted)
      refl

movement_between_periods-eq_example :
    movement_between_periods books 7 100 day 101 day
    ≡ book_window books 7 (sort_key 100 day) (sort_key 101 day)
      ⊕ legacy_window books 7 (sort_key 100 day) (sort_key 101 day)
movement_between_periods-eq_example = movement_between_periods-eq books 7 100 day 101 day

find_anchor_figure_latest_example :
    (f : DailyFigure) × (find_anchor_figure books 7 101 day (id_of (figure_at books 7 101 day))
      ≡ some f)
    × IsAnchorBefore books 7 (sort_key 101 day) f
    × (figure_key corrected ≤ figure_key f)
find_anchor_figure_latest_example =
    find_anchor_figure_latest books 7 101 day corrected books-AreDistinct (record {
      stored = inl refl;
      of_product = refl;
      trusted = corrected-trusted;
      before = omega arith;
    })

abbrev metro_return : ReturnRecord
metro_return = record {
  id = 1;
  date = 105;
  status = finalized;
  returned_by_customer = some (record { id = 4; sales_category = some "Metro Sales" });
  lines = [];
}

stock_posting_return_filter-eq_example :
    stock_posting_return_filter (λ date. (date % 7 + 1) % 7) metro_return
    ≡ is_return_stock_posting_eligible (λ date. date % 7) metro_return
stock_posting_return_filter-eq_example =
    stock_posting_return_filter-eq (λ date. date % 7) (λ date. (date % 7 + 1) % 7) metro_return
      (λ date. omega arith) (λ date. refl)
