-- ===== src/Production/Posting.antt =====
-- production_service.py: what a line records of what was entered, and which records count in the stock.
use daily_figures.Common.{
  ℕ, ◌<◌, ◌≡◌, refl, sym, ◌∙◌, ap, inl, inr, Bool, false, Option, List, [], ◌∷◌, ◌++◌, String, ℤ,
  pos, ◌+ℤ◌, int_laws, ◌==◌, Result, ok, raise, Bool-cases, Result-cases, arith,
}
use daily_figures.Packaging.{PackagingRule, IsPositive, normalize, to_base_units}
use daily_figures.Packaging.Canonical.{
  IsCanonical, count_again, normalize-IsCanonical, normalize-to_base_units,
}
use daily_figures.Records.{Shift, draft, finalized, is_finalized, Line, ProductionRecord, User}
use daily_figures.Stock.Database.{Database, Movement, line_movements}
use daily_figures.Stock.Queries.{produced, production_finalized_base_qty, total, is_at}
use daily_figures.Production.{
  ProductionError, LineInput, line_of, is_empty, is_blank, finalized_row, reopened_row, voided_row,
  finalize_production, reopen_production, void_production,
}

-- A line that is accepted has a positive total, the one of what was entered, and its parts are the
-- canonical split of that total, if the ratios of the product's rule are positive.
pub line_of-eq :
    (rule : PackagingRule) (l : LineInput) (line : Line)
    → IsPositive rule
    → line_of rule l ≡ ok line
    → (n : ℕ) × (0 < n)
      × (line.base_unit_qty ≡ pos n)
      × (to_base_units l.cartons l.packs l.pieces rule ≡ ok n)
      × (count_again rule line.quantity ≡ ok n)
      × IsCanonical rule line.quantity
unfolding line_of
line_of-eq rule l line h e = elim (Result-cases (normalize l.cartons l.packs l.pieces rule)) [
  | inr (err, failed) ↦ cc (rw (failed, line_of) at e)
  | inl (q, normal) ↦ elim (Result-cases (count_again rule q)) [
    | inr (err, failed) ↦ cc (rw failed at (rw (normal, line_of) at e))
    | inl (n, counted) ↦ elim (Bool-cases (n == 0)) [
      | inl zero ↦ cc (rw zero at (rw counted at (rw (normal, line_of) at e)))
      | inr positive ↦
          let same = ap (value line) (rw positive at (rw counted at (rw (normal, line_of) at e))) in
          let of_quantity : line.quantity ≡ q = sym (ap (λ (x : Line). x.quantity) same) in
          (
            n,
            ground arith,
            sym (ap (λ (x : Line). x.base_unit_qty) same),
            sym (normalize-to_base_units l.cartons l.packs l.pieces rule h) ∙ rw normal counted,
            rw of_quantity counted,
            rw of_quantity (normalize-IsCanonical l.cartons l.packs l.pieces rule h normal),
          )
    ]
  ]
]
  where
    value : Line → Result ProductionError Line → Line
    value d (ok x) = x
    value d (raise err) = d

-- The stock with one more record in the Production Book.
abbrev pub with_record : ProductionRecord → Database → Database
with_record r db = record db { productions = r ∷ db.productions }

-- What the lines of a record hold for a product and a period.
abbrev pub recorded : ProductionRecord → (product_id date : ℕ) → Shift → ℤ
recorded r product_id date shift =
    total (is_at product_id date shift) (line_movements r.date r.shift r.lines)

pub total_append :
    (test : Movement → Bool) (xs ys : List Movement)
    → total test (xs ++ ys) ≡ total test xs +ℤ total test ys
total_append test [] ys = omega int_laws
total_append test (x ∷ xs) ys = rw (total_append test xs ys) (omega int_laws)

production-finalized :
    (db : Database) (r : ProductionRecord) (product_id date : ℕ) (shift : Shift)
    → r.status ≡ finalized
    → production_finalized_base_qty (with_record r db) product_id date shift
      ≡ recorded r product_id date shift +ℤ production_finalized_base_qty db product_id date shift
unfolding production_finalized_base_qty produced
production-finalized db r product_id date shift h =
    rw h (total_append (is_at product_id date shift) (line_movements r.date r.shift r.lines) _)

production-not_finalized :
    (db : Database) (r : ProductionRecord) (product_id date : ℕ) (shift : Shift)
    → is_finalized r.status ≡ false
    → production_finalized_base_qty (with_record r db) product_id date shift
      ≡ production_finalized_base_qty db product_id date shift
unfolding production_finalized_base_qty produced
production-not_finalized db r product_id date shift h = rw h refl

-- A draft with lines can be finalized, and then its lines count in the stock of every product and
-- period, on top of the rest of the book; a finalized record can be reopened or voided for a reason,
-- and then they count no more. In all three records the lines are those of the draft.
pub finalize_production-posting :
    (db : Database) (now later : ℕ) (r : ProductionRecord) (user : User) (reason : Option String)
    → r.status ≡ draft
    → is_empty r.lines ≡ false
    → is_blank reason ≡ false
    → (posted : ProductionRecord) × (reopened : ProductionRecord) × (voided : ProductionRecord)
      × (finalize_production now r user ≡ ok posted)
      × (reopen_production posted user reason ≡ ok reopened)
      × (void_production later posted user reason ≡ ok voided)
      × (posted.lines ≡ r.lines)
      × (reopened.lines ≡ r.lines)
      × (voided.lines ≡ r.lines)
      × ((product_id date : ℕ) (shift : Shift)
          → (production_finalized_base_qty (with_record posted db) product_id date shift
              ≡ recorded r product_id date shift
                +ℤ production_finalized_base_qty (with_record r db) product_id date shift)
            × (production_finalized_base_qty (with_record reopened db) product_id date shift
                ≡ production_finalized_base_qty (with_record r db) product_id date shift)
            × (production_finalized_base_qty (with_record voided db) product_id date shift
                ≡ production_finalized_base_qty (with_record r db) product_id date shift))
unfolding finalize_production reopen_production void_production
finalize_production-posting db now later r user reason h some_lines given =
    let posted = finalized_row now user r in
    let draft_counts_not = λ (product_id date : ℕ) (shift : Shift).
      production-not_finalized db r product_id date shift (rw h refl) in
    (
      posted,
      reopened_row user reason posted,
      voided_row later user reason posted,
      rw (h, finalize_production) (rw some_lines refl),
      rw (given, reopen_production) refl,
      rw (given, void_production) refl,
      refl,
      refl,
      refl,
      λ product_id date shift. (
        production-finalized db posted product_id date shift refl
            ∙ ap (λ (n : ℤ). recorded r product_id date shift +ℤ n)
                (sym (draft_counts_not product_id date shift)),
        production-not_finalized db (reopened_row user reason posted) product_id date shift refl
            ∙ sym (draft_counts_not product_id date shift),
        production-not_finalized db (voided_row later user reason posted) product_id date shift refl
            ∙ sym (draft_counts_not product_id date shift),
      ),
    )
