-- ===== src/Stock/Carry/Period.antt =====
-- stock_service.py, `closing_base_qty` and the closing of the view: the opening of a period and what
-- the books and the row of the period hold.
use mathlib.Core.Path.{ap₂}
use daily_figures.Common.{
  ℕ, ◌≡◌, inl, inr, refl, sym, ◌∙◌, ap, true, false, Option, none, some, List, [], ◌∷◌, ℤ, pos,
  int_laws, Bool-cases, find_first, sum_where, arith,
}
use daily_figures.Records.{Shift, day, night, sort_key, DailyFigure}
use daily_figures.Stock.Database.{Database}
use daily_figures.Stock.Queries.{issued_base_qty, return_base_qty, production_base_qty}
use daily_figures.Stock.Anchor.{figure_key, figure_at, is_figure_at}
use daily_figures.Stock.Anchor.Latest.{AreOthers, AreDistinct, figure_at_some, is_figure_at_key}
use daily_figures.Stock.Window.{◌⊕◌, Totals_eq, no_movement-⊕, is_figure_within, legacy_window}
use daily_figures.Stock.Carry.{
  Totals, no_movement, carry, closing_base_qty, add_period, compute_closing, legacy_return_of,
  legacy_production_of,
}
use daily_figures.Stock.Carry.Movement.{add_period-eq}
use daily_figures.Stock.Carry.Step.{period_totals}

-- The rows of a period, of which there is one at most, hold what the row that is found there holds.
legacy_at-none :
    (product_id date : ℕ) (s : Shift) (q : DailyFigure → ℤ) (g : DailyFigure)
    (fs : List DailyFigure)
    → AreOthers g fs
    → g.product_id ≡ product_id
    → figure_key g ≡ sort_key date s
    → sum_where (is_figure_within product_id (sort_key date s) (sort_key date s)) q fs ≡ pos 0
legacy_at-none product_id date s q g [] o p k = refl
legacy_at-none product_id date s q g (f ∷ fs) o p k =
    elim (Bool-cases (is_figure_within product_id (sort_key date s) (sort_key date s) f)) [
      | inl here ↦ absurd ((o.0).1 (ground arith) (ground arith))
      | inr other ↦ rw (other, legacy_at-none product_id date s q g fs o.1 p k) (omega int_laws)
    ]

stored_at : (DailyFigure → ℤ) → Option DailyFigure → ℤ
stored_at q none = pos 0
stored_at q (some f) = q f

legacy_at :
    (product_id date : ℕ) (s : Shift) (q : DailyFigure → ℤ) (fs : List DailyFigure)
    → AreDistinct fs
    → sum_where (is_figure_within product_id (sort_key date s) (sort_key date s)) q fs
      ≡ stored_at q (find_first (is_figure_at product_id date s) fs)
unfolding stored_at
legacy_at product_id date s q [] d = refl
legacy_at product_id date s q (f ∷ fs) d = elim (Bool-cases (is_figure_at product_id date s f)) [
  | inl here ↦
      let (_, p, on_date, in_shift) = figure_at_some product_id date s (f ∷ fs) f (rw here refl) in
      let k : figure_key f ≡ sort_key date s = ap₂ sort_key on_date in_shift in
      let within : is_figure_within product_id (sort_key date s) (sort_key date s) f ≡ true =
        ground arith in
      rw (here, within) (rw (legacy_at-none product_id date s q f fs d.0 p k) (omega int_laws))
  | inr other ↦
      let outside : is_figure_within product_id (sort_key date s) (sort_key date s) f ≡ false =
        elim (Bool-cases (is_figure_within product_id (sort_key date s) (sort_key date s) f)) [
          | inl within ↦
              cc (is_figure_at_key product_id date s f (ground arith) (ground arith), other)
          | inr out ↦ out
        ] in
      rw (other, outside) (rw (legacy_at product_id date s q fs d.1) (omega int_laws))
]

stored_at-production :
    (o : Option DailyFigure) → stored_at (λ f. f.production_base_qty) o ≡ legacy_production_of o
unfolding stored_at
stored_at-production none = refl
stored_at-production (some f) = refl

stored_at-return :
    (o : Option DailyFigure) → stored_at (λ f. f.return_base_qty) o ≡ legacy_return_of o
unfolding stored_at
stored_at-return none = refl
stored_at-return (some f) = refl

abbrev legacy_totals : Option DailyFigure → Totals
legacy_totals o = record {
  production = legacy_production_of o;
  returns = legacy_return_of o;
  issued = pos 0;
}

module _ (db : Database) (product_id date : ℕ) (shift : Shift) where
  period_totals-eq :
      AreDistinct db.figures
      → period_totals db product_id date shift
        ≡ add_period db product_id no_movement date shift
          ⊕ legacy_totals (figure_at db product_id date shift)
  unfolding legacy_window
  period_totals-eq d =
      ap₂ ◌⊕◌ (sym (no_movement-⊕ _) ∙ sym (add_period-eq db product_id no_movement date shift)) (
        Totals_eq _ _
          (legacy_at product_id date shift (λ f. f.production_base_qty) db.figures d
            ∙ stored_at-production _)
          (legacy_at product_id date shift (λ f. f.return_base_qty) db.figures d
            ∙ stored_at-return _)
          refl)

closing_by_shift :
    (db : Database) (product_id date : ℕ) (shift : Shift) (opening production returns : ℤ)
    → compute_closing opening
        (production_base_qty db product_id date shift production)
        (return_base_qty db product_id date shift returns)
        (issued_base_qty db product_id date shift)
      ≡ carry opening (
          add_period db product_id no_movement date shift
          ⊕ record { production = production; returns = returns; issued = pos 0 })
unfolding compute_closing production_base_qty return_base_qty issued_base_qty add_period ◌⊕◌
closing_by_shift db product_id date day opening production returns = omega int_laws
closing_by_shift db product_id date night opening production returns = omega int_laws

module _ (db : Database) (product_id date : ℕ) (shift : Shift) where
  -- The closing that the view shows is its opening and what the period holds.
  pub closing_base-eq :
      AreDistinct db.figures
      → (opening : ℤ)
      → compute_closing opening
          (production_base_qty db product_id date shift
            (legacy_production_of (figure_at db product_id date shift)))
          (return_base_qty db product_id date shift
            (legacy_return_of (figure_at db product_id date shift)))
          (issued_base_qty db product_id date shift)
        ≡ carry opening (period_totals db product_id date shift)
  closing_base-eq d opening =
      closing_by_shift db product_id date shift opening _ _
      ∙ ap (carry opening) (sym (period_totals-eq db product_id date shift d))

  -- The closing of a row that stands at a period.
  pub closing_base_qty-eq :
      (f : DailyFigure)
      → AreDistinct db.figures
      → figure_at db product_id date shift ≡ some f
      → closing_base_qty db f ≡ carry f.opening_base_qty (period_totals db product_id date shift)
  unfolding closing_base_qty
  closing_base_qty-eq f d e =
      let (_, of_product, on_date, in_shift) =
        figure_at_some product_id date shift db.figures f e in
      (λ i.
        compute_closing f.opening_base_qty
          (production_base_qty db (of_product i) (on_date i) (in_shift i) f.production_base_qty)
          (return_base_qty db (of_product i) (on_date i) (in_shift i) f.return_base_qty)
          (issued_base_qty db (of_product i) (on_date i) (in_shift i)))
      ∙ rw e at (closing_base-eq d f.opening_base_qty)
