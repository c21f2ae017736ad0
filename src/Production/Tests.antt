-- ===== src/Production/Tests.antt =====
-- A line of 25 loose pieces over a carton and 11 packs, and a draft of that line.
use daily_figures.Common.{ℕ, ◌<◌, ◌≡◌, refl, none, some, [], ◌∷◌, pos, ◌+ℤ◌, ok, arith}
use daily_figures.Packaging.{normalize, normalize_counts, roll_up, to_base_units, count_base_units}
use daily_figures.Packaging.Canonical.{IsCanonical, count_again}
use daily_figures.Records.{Shift, day, draft, Line, ProductionRecord}
use daily_figures.Stock.Queries.{production_finalized_base_qty}
use daily_figures.Stock.Tests.{boxes, chief, books}
use daily_figures.Production.{
  LineInput, line_of, finalize_production, reopen_production, void_production,
}
use daily_figures.Production.Posting.{
  with_record, recorded, line_of-eq, finalize_production-posting,
}

abbrev entered : LineInput
entered = record { product_id = 7; cartons = pos 1; packs = pos 11; pieces = pos 25 }

abbrev built : Line
built = record {
  product_id = 7;
  quantity = record { cartons = 2; packs = 1; pieces = 5 };
  base_unit_qty = pos 255;
  packaging_rule_id = 1;
}

built_from_entered : line_of boxes entered ≡ ok built
unfolding line_of normalize normalize_counts roll_up to_base_units count_base_units
built_from_entered = refl

line_of-eq_example :
    (n : ℕ) × (0 < n)
    × (pos 255 ≡ pos n)
    × (to_base_units (pos 1) (pos 11) (pos 25) boxes ≡ ok n)
    × (count_again boxes built.quantity ≡ ok n)
    × IsCanonical boxes built.quantity
line_of-eq_example = line_of-eq boxes entered built (omega arith, omega arith) built_from_entered

abbrev drafted : ProductionRecord
drafted = record {
  id = 2;
  date = 101;
  shift = day;
  remarks = none;
  status = draft;
  created_by = some 3;
  updated_by = some 3;
  finalized_by = none;
  finalized_at = none;
  voided_by = none;
  voided_at = none;
  void_reason = none;
  lines = built ∷ [];
}

finalize_production-posting_example :
    (posted : ProductionRecord) × (reopened : ProductionRecord) × (voided : ProductionRecord)
    × (finalize_production 5 drafted chief ≡ ok posted)
    × (reopen_production posted chief (some "miscount") ≡ ok reopened)
    × (void_production 6 posted chief (some "miscount") ≡ ok voided)
    × (posted.lines ≡ drafted.lines)
    × (reopened.lines ≡ drafted.lines)
    × (voided.lines ≡ drafted.lines)
    × ((product_id date : ℕ) (shift : Shift)
        → (production_finalized_base_qty (with_record posted books) product_id date shift
            ≡ recorded drafted product_id date shift
              +ℤ production_finalized_base_qty (with_record drafted books) product_id date shift)
          × (production_finalized_base_qty (with_record reopened books) product_id date shift
              ≡ production_finalized_base_qty (with_record drafted books) product_id date shift)
          × (production_finalized_base_qty (with_record voided books) product_id date shift
              ≡ production_finalized_base_qty (with_record drafted books) product_id date shift))
finalize_production-posting_example =
    finalize_production-posting books 5 6 drafted chief (some "miscount") refl refl refl
