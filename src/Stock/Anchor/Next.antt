-- ===== src/Stock/Anchor/Next.antt =====
-- stock_service.py, `_find_anchor_figure`: the anchors of a period and of the one after it.
use mathlib.Core.Path.{ap₂}
use daily_figures.Common.{
  ℕ, ◌≤◌, ◌≡◌, ◌≢◌, inl, inr, sym, ◌∙◌, ap, true, false, some, Option-cases, arith,
}
use daily_figures.Records.{Shift, sort_key, DailyFigure}
use daily_figures.Stock.Database.{Database}
use daily_figures.Stock.Anchor.{
  figure_key, figure_at, id_of, is_trusted_anchor, find_anchor_figure, is_trusted, next_period_date,
  next_period_shift,
}
use daily_figures.Stock.Anchor.Latest.{
  AreDistinct, IsAnchorBefore, eq_of_period, figure_at_some, figure_at_none,
  find_anchor_figure-some, find_anchor_figure-none, find_anchor_figure_latest,
}
use daily_figures.Stock.Carry.Step.{next_key, key-le_of_lt_next, key-lt_next}

module _ (db : Database) (product_id date : ℕ) (shift : Shift) where
  -- Without a trusted row at the period, what is trusted before the next one is trusted before it.
  anchor_before :
      (f : DailyFigure)
      → AreDistinct db.figures
      → is_trusted db (figure_at db product_id date shift) ≡ false
      → IsAnchorBefore db product_id (next_key date shift) f
      → IsAnchorBefore db product_id (sort_key date shift) f
  anchor_before f d untrusted a = record {
    stored = a.stored;
    of_product = a.of_product;
    trusted = a.trusted;
    before = elim (Option-cases (figure_at db product_id date shift)) [
      | inl missing ↦
          let other =
            figure_at_none product_id date shift db.figures f missing a.stored a.of_product in
          omega (arith, le)
      | inr (g, found) ↦
          let (stored', of_product', on_date, in_shift) =
            figure_at_some product_id date shift db.figures g found in
          let untrusted' : is_trusted_anchor db g ≡ false = rw found at untrusted in
          let same : figure_key f ≡ sort_key date shift → f ≡ g = λ k.
            eq_of_period f g db.figures d a.stored stored' (a.of_product ∙ sym of_product')
              (k ∙ sym (ap₂ sort_key on_date in_shift)) in
          let other : figure_key f ≢ sort_key date shift =
            λ k. cc (ap (is_trusted_anchor db) (same k), a.trusted, untrusted') in
          omega (arith, le)
    ];
  }
    where
      le : figure_key f ≤ sort_key date shift
      le = key-le_of_lt_next date shift f.date f.shift a.before

  -- Then the search finds one anchor for both periods.
  pub find_anchor_figure-next :
      AreDistinct db.figures
      → is_trusted db (figure_at db product_id date shift) ≡ false
      → let date' = next_period_date date shift in
        let shift' = next_period_shift shift in
        find_anchor_figure db product_id date' shift' (id_of (figure_at db product_id date' shift'))
        ≡ find_anchor_figure db product_id date shift (id_of (figure_at db product_id date shift))
  find_anchor_figure-next d untrusted =
      let date' = next_period_date date shift in
      let shift' = next_period_shift shift in
      let later : (f : DailyFigure)
          → IsAnchorBefore db product_id (sort_key date shift) f
          → IsAnchorBefore db product_id (next_key date shift) f =
        λ f a. record {
          stored = a.stored;
          of_product = a.of_product;
          trusted = a.trusted;
          before = omega (arith, key-lt_next date shift, a.before);
        } in
      elim (Option-cases (
        find_anchor_figure db product_id date' shift'
          (id_of (figure_at db product_id date' shift')))) [
            | inl none' ↦
                elim (Option-cases (
                  find_anchor_figure db product_id date shift
                    (id_of (figure_at db product_id date shift)))) [
                      | inl none₀ ↦ none' ∙ sym none₀
                      | inr (g, e) ↦ absurd (
                          find_anchor_figure-none db product_id date' shift' g d none'
                            (later g (find_anchor_figure-some db product_id date shift g d e).0))
                    ]
            | inr (f, e') ↦
                let (a', greatest') = find_anchor_figure-some db product_id date' shift' f d e' in
                let a = anchor_before f d untrusted a' in
                elim (Option-cases (
                  find_anchor_figure db product_id date shift
                    (id_of (figure_at db product_id date shift)))) [
                      | inl none₀ ↦
                          absurd (find_anchor_figure-none db product_id date shift f d none₀ a)
                      | inr (g, e) ↦
                          let (b, greatest) =
                            find_anchor_figure-some db product_id date shift g d e in
                          let same : f ≡ g =
                            eq_of_period f g db.figures d a.stored b.stored
                              (a.of_product ∙ sym b.of_product)
                              (omega (arith, greatest f a, greatest' g (later g b))) in
                          e' ∙ ap some same ∙ sym e
                    ]
          ]

  -- A trusted row at the period is the anchor of the next one.
  pub find_anchor_figure-next_trusted :
      (f : DailyFigure)
      → AreDistinct db.figures
      → figure_at db product_id date shift ≡ some f
      → is_trusted_anchor db f ≡ true
      → let date' = next_period_date date shift in
        let shift' = next_period_shift shift in
        find_anchor_figure db product_id date' shift' (id_of (figure_at db product_id date' shift'))
        ≡ some f
  find_anchor_figure-next_trusted f d e t =
      let (stored, of_product, on_date, in_shift) =
        figure_at_some product_id date shift db.figures f e in
      let k : figure_key f ≡ sort_key date shift = ap₂ sort_key on_date in_shift in
      let a : IsAnchorBefore db product_id (next_key date shift) f = record {
        stored = stored;
        of_product = of_product;
        trusted = t;
        before = omega (arith, key-lt_next date shift);
      } in
      let (g, found, b, later) =
        find_anchor_figure_latest db product_id (next_period_date date shift)
          (next_period_shift shift) f d a in
      let same : g ≡ f =
        eq_of_period g f db.figures d b.stored stored (b.of_product ∙ sym of_product)
          (omega (arith, key-le_of_lt_next date shift g.date g.shift b.before)) in
      found ∙ ap some same
