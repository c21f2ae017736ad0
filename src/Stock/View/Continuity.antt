-- ===== src/Stock/View/Continuity.antt =====
-- stock_service.py, `daily_figure_view`: how the balance passes from one period to the next.
use mathlib.Core.Path.{ap₂}
use daily_figures.Common.{
  ℕ, ◌≤◌, ◌<◌, ◌≡◌, ◌≢◌, ◌⊎◌, inl, inr, sym, ◌∙◌, ap, true, false, Option, none, some, ℤ, ◌+ℤ◌,
  ◌-ℤ◌, int_laws, Bool-cases, Option-cases, arith,
}
use daily_figures.Records.{Shift, day, night, sort_key, DailyFigure}
use daily_figures.Stock.Database.{Database}
use daily_figures.Stock.Queries.{any_finalized_activity_at_or_before}
use daily_figures.Stock.Anchor.{
  figure_key, figure_at, id_of, is_trusted_anchor, find_anchor_figure, is_trusted, prev_period_date,
  prev_period_shift, next_period_date, next_period_shift,
}
use daily_figures.Stock.Anchor.Latest.{AreDistinct, figure_at_some, find_anchor_figure-some}
use daily_figures.Stock.Window.{◌⊕◌}
use daily_figures.Stock.Carry.{
  Totals, carry, closing_base_qty, movement_between_periods, carried_from, carried_from_epoch,
  epoch_date, get_prior_closing_base_qty,
}
use daily_figures.Stock.Carry.Step.{
  period_totals, prev_period_date-next, prev_period_shift-next, key-lt_next, next_key-le, carry-⊕,
  movement_between_periods-step, movement_between_periods-empty, any_finalized_activity-prev,
}
use daily_figures.Stock.View.{figure_numbers}
use daily_figures.Stock.Anchor.Next.{find_anchor_figure-next, find_anchor_figure-next_trusted}
use daily_figures.Stock.Carry.Period.{closing_base-eq, closing_base_qty-eq}

abbrev net : Totals → ℤ
net t = t.production +ℤ t.returns -ℤ t.issued

net-⊕ : (x y : Totals) → net (x ⊕ y) ≡ carry (net x) y
unfolding ◌⊕◌
net-⊕ x y = omega int_laws

module _ (db : Database) (product_id date : ℕ) (shift : Shift) (exclude_id : Option ℕ) where
  prior_of_anchor :
      (a : DailyFigure)
      → find_anchor_figure db product_id date shift exclude_id ≡ some a
      → get_prior_closing_base_qty db product_id date shift exclude_id
        ≡ some (carried_from db a product_id date shift)
  unfolding get_prior_closing_base_qty
  prior_of_anchor a e = rw (e, get_prior_closing_base_qty)

  prior_of_none :
      find_anchor_figure db product_id date shift exclude_id ≡ none
      → get_prior_closing_base_qty db product_id date shift exclude_id
        ≡ carried_from_epoch db product_id date shift
  unfolding get_prior_closing_base_qty
  prior_of_none e = rw (e, get_prior_closing_base_qty)

module _ (db : Database) (product_id date : ℕ) (shift : Shift) where
  -- A balance that is carried from an anchor grows by what the period holds.
  carried_from-step :
      (a : DailyFigure)
      → 0 < date
      → figure_key a < sort_key date shift
      → carried_from db a product_id (next_period_date date shift) (next_period_shift shift)
        ≡ carry (carried_from db a product_id date shift) (period_totals db product_id date shift)
  unfolding carried_from
  carried_from-step a h before =
      rw (prev_period_date-next date shift, prev_period_shift-next shift)
        (ap (carry (closing_base_qty db a)) (
            movement_between_periods-step db product_id (next_period_date a.date a.shift)
              (next_period_shift a.shift) date shift h
              (next_key-le date shift a.date a.shift before))
          ∙ carry-⊕ _ _ _)

  -- From the row of the period itself nothing is between it and the next.
  carried_from_self :
      (f : DailyFigure)
      → figure_key f ≡ sort_key date shift
      → carried_from db f product_id (next_period_date date shift) (next_period_shift shift)
        ≡ closing_base_qty db f
  unfolding carried_from
  carried_from_self f k =
      rw (prev_period_date-next date shift, prev_period_shift-next shift)
        (ap (carry (closing_base_qty db f)) (
            movement_between_periods-empty db product_id (next_period_date f.date f.shift)
              (next_period_shift f.shift) date shift (omega (arith, key-lt_next f.date f.shift)))
          ∙ omega int_laws)

  -- With no anchor the balance since the first day grows likewise.
  carried_from_epoch-step :
      (opening : ℤ)
      → 0 < date
      → carried_from_epoch db product_id date shift ≡ some opening
      → carried_from_epoch db product_id (next_period_date date shift) (next_period_shift shift)
        ≡ some (carry opening (period_totals db product_id date shift))
  unfolding carried_from_epoch
  carried_from_epoch-step opening h e =
      rw (prev_period_date-next date shift, prev_period_shift-next shift)
        (elim (Bool-cases (
          any_finalized_activity_at_or_before db product_id (prev_period_date date shift)
            (prev_period_shift shift))) [
              | inr idle ↦ absurd (cc (rw idle at e))
              | inl active ↦
                  let earlier =
                    movement_between_periods db product_id epoch_date day
                      (prev_period_date date shift) (prev_period_shift shift) in
                  let balance : net earlier ≡ opening = cc (rw active at e) in
                  rw (any_finalized_activity-prev db product_id date shift h active) (
                    ap some (
                      ap net (
                        movement_between_periods-step db product_id epoch_date day date shift h
                          (after_epoch shift))
                      ∙ net-⊕ earlier _
                      ∙ ap (λ (b : ℤ). carry b (period_totals db product_id date shift)) balance))
            ])
    where
      after_epoch : (s : Shift) → sort_key epoch_date day ≤ sort_key date s
      after_epoch day = omega arith
      after_epoch night = omega arith

module _ (db : Database) (product_id date : ℕ) (shift : Shift) where
  abbrev prior_at : Option ℤ
  prior_at =
      get_prior_closing_base_qty db product_id date shift
        (id_of (figure_at db product_id date shift))

  abbrev prior_next : Option ℤ
  prior_next =
      let date' = next_period_date date shift in
      let shift' = next_period_shift shift in
      get_prior_closing_base_qty db product_id date' shift'
        (id_of (figure_at db product_id date' shift'))

  prior_next-trusted :
      (f : DailyFigure)
      → AreDistinct db.figures
      → figure_at db product_id date shift ≡ some f
      → is_trusted_anchor db f ≡ true
      → prior_next ≡ some (carry f.opening_base_qty (period_totals db product_id date shift))
  prior_next-trusted f d e t =
      let (_, _, on_date, in_shift) = figure_at_some product_id date shift db.figures f e in
      prior_of_anchor db product_id _ _ _ f
        (find_anchor_figure-next_trusted db product_id date shift f d e t)
      ∙ ap some (
          carried_from_self db product_id date shift f (ap₂ sort_key on_date in_shift)
          ∙ closing_base_qty-eq db product_id date shift f d e)

  prior_next-untrusted :
      (opening : ℤ)
      → AreDistinct db.figures
      → 0 < date
      → is_trusted db (figure_at db product_id date shift) ≡ false
      → prior_at ≡ some opening
      → prior_next ≡ some (carry opening (period_totals db product_id date shift))
  prior_next-untrusted opening d h u e =
      let same = find_anchor_figure-next db product_id date shift d u in
      elim (Option-cases (
        find_anchor_figure db product_id date shift (id_of (figure_at db product_id date shift)))) [
          | inl none₀ ↦
              prior_of_none db product_id _ _ _ (same ∙ none₀)
              ∙ carried_from_epoch-step db product_id date shift opening h
                  (sym (prior_of_none db product_id date shift _ none₀) ∙ e)
          | inr (a, found) ↦
              let (b, _) = find_anchor_figure-some db product_id date shift a d found in
              let carried : carried_from db a product_id date shift ≡ opening =
                cc (prior_of_anchor db product_id date shift _ a found) in
              prior_of_anchor db product_id _ _ _ a (same ∙ found)
              ∙ ap some (
                  carried_from-step db product_id date shift a h b.before
                  ∙ ap (λ (o : ℤ). carry o (period_totals db product_id date shift)) carried)
        ]

  -- In a table that keeps its constraints, once a product has a balance at a period (a trusted row
  -- there, or a balance carried into it), of a date above 0, the opening that the view shows for the next period is the
  -- closing that it shows for this one, if the next period has no trusted row of its own.
  pub opening_next-eq-closing :
      AreDistinct db.figures
      → 0 < date
      → (is_trusted db (figure_at db product_id date shift) ≡ true) ⊎ (prior_at ≢ none)
      → is_trusted db
          (figure_at db product_id (next_period_date date shift) (next_period_shift shift))
        ≡ false
      → (figure_numbers db product_id
          (next_period_date date shift)
          (next_period_shift shift)).opening_base
        ≡ (figure_numbers db product_id date shift).closing_base
  unfolding figure_numbers
  opening_next-eq-closing d h established u' = rw u' (
      rw (closing_base-eq db product_id date shift d _)
        (elim (Bool-cases (is_trusted db (figure_at db product_id date shift))) [
          | inl t ↦ elim (Option-cases (figure_at db product_id date shift)) [
            | inl missing ↦ cc (rw missing at t)
            | inr (f, e) ↦ rw (prior_next-trusted f d e (rw e at t)) (rw t (rw e))
          ]
          | inr u ↦ elim (Option-cases prior_at) [
            | inl blank ↦ elim established [
              | inl t ↦ cc (t, u)
              | inr some_prior ↦ absurd (some_prior blank)
            ]
            | inr (o, e) ↦ rw (prior_next-untrusted o d h u e) (rw u (rw e))
          ]
        ]))
