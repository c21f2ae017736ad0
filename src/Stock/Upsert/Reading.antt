-- ===== src/Stock/Upsert/Reading.antt =====
-- stock_service.py, `upsert_daily_figure`: the opening that is read back after a save.
use daily_figures.Common.{
  ℕ, ◌≡◌, ◌⊎◌, refl, sym, ◌∙◌, ap, inl, inr, Bool, true, false, not, Option, none, some, String, ℤ,
  pos, Bool-cases, ok,
}
use daily_figures.Packaging.{PackagingRule}
use daily_figures.Records.{
  Shift, DailyFigure, OpeningSource, manual_correction, initial_manual, Product,
  current_packaging_rule, User,
}
use daily_figures.Stock.Database.{Database}
use daily_figures.Stock.Anchor.{figure_at, is_trusted_anchor}
use daily_figures.Stock.Anchor.Latest.{AreDistinct, figure_at_some}
use daily_figures.Stock.Carry.{opening_base_qty_at}
use daily_figures.Stock.Upsert.{
  OpeningInput, Submitted, submit, choose_opening, is_given, opening_locked_at, is_kept,
  is_explicit_edit, is_existing_trusted, upsert_daily_figure,
}
use daily_figures.Stock.Upsert.Rows.{AreBelow}
use daily_figures.Stock.Upsert.Saved.{
  value_of, write_opening_ok, upsert_daily_figure_ok, upsert_daily_figure-AreDistinct,
}
use daily_figures.Stock.Upsert.Trusted.{
  is_trusted_anchor-commit, unconditional-trusted, no_prior-idle, first-trusted,
  opening_base_qty_at-trusted,
}

-- A submitted opening that is explicit, or the first, is the one that is chosen.
choose_opening-submitted :
    (locked : Option ℤ) (s : Submitted) (explicit_edit : Bool) (reason : Option String)
    (figure : Option DailyFigure) (source : OpeningSource) (base : ℤ)
    → choose_opening locked (some s) explicit_edit reason figure ≡ ok (source, base)
    → (explicit_edit ≡ true) ⊎ (locked ≡ none)
    → (base ≡ pos s.base_qty)
      × ((source ≡ manual_correction) ⊎ ((source ≡ initial_manual) × (locked ≡ none)))
choose_opening-submitted none s explicit_edit reason figure source base e h =
    (sym (ap (λ r. (value_of r).1) e), inr (sym (ap (λ r. (value_of r).0) e), refl))
choose_opening-submitted (some l) s true reason figure source base e h =
    elim (Bool-cases (not (is_given reason))) [
      | inl missing ↦ cc (rw missing at e)
      | inr given ↦
          let e' = rw given at e in
          (sym (ap (λ r. (value_of r).1) e'), inl (sym (ap (λ r. (value_of r).0) e')))
    ]
choose_opening-submitted (some l) s false reason figure source base e (inl h) = absurd (cc)
choose_opening-submitted (some l) s false reason figure source base e (inr h) = absurd (cc)

is_kept-false :
    (figure : Option DailyFigure) (explicit_edit : Bool) (locked : Option ℤ)
    → (explicit_edit ≡ true) ⊎ (locked ≡ none)
    → is_kept figure explicit_edit locked ≡ false
is_kept-false figure explicit_edit locked (inl e) = elim (Bool-cases (is_existing_trusted figure)) [
  | inl t ↦ rw (t, e)
  | inr f ↦ rw f
]
is_kept-false figure true locked (inr e) = elim (Bool-cases (is_existing_trusted figure)) [
  | inl t ↦ rw t
  | inr f ↦ rw f
]
is_kept-false figure false locked (inr e) = elim (Bool-cases (is_existing_trusted figure)) [
  | inl t ↦ rw (t, e)
  | inr f ↦ rw f
]

-- In a table that keeps its constraints, and with a packaging rule in force, an opening that is
-- submitted explicitly by a user who may edit it, or that is the first of its product, is read back
-- after a save that succeeds: the period's opening is the submitted total.
pub opening_base_qty_at-save_submitted :
    (db : Database) (now : ℕ) (rule : PackagingRule) (product : Product) (date : ℕ) (shift : Shift)
    (opening : Option OpeningInput) (s : Submitted) (notes : Option String) (user : User)
    (explicitly_edited : Bool) (reason : Option String) (db' : Database) (saved : DailyFigure)
    → AreDistinct db.figures
    → AreBelow db.next_id db.figures
    → current_packaging_rule product now ≡ some rule
    → submit opening rule ≡ ok (some s)
    → (is_explicit_edit db user explicitly_edited (some s) ≡ true)
      ⊎ (opening_locked_at db product.id date shift ≡ none)
    → upsert_daily_figure db now product date shift opening notes user explicitly_edited reason
      ≡ ok (db', saved)
    → opening_base_qty_at db' product.id date shift ≡ pos s.base_qty
opening_base_qty_at-save_submitted db now rule product date shift opening s notes user
      explicitly_edited reason db' saved d b r e h u =
    let (d', b', found) =
      upsert_daily_figure-AreDistinct db now product date shift opening notes user explicitly_edited
        reason db' saved d b u in
    let v =
      upsert_daily_figure_ok db now rule product date shift opening (some s) notes user
        explicitly_edited reason db' saved r e u in
    let (base, source) = choose_opening-submitted _ s _ reason _ v.source v.base v.chosen h in
    elim (write_opening_ok rule _ v.source v.base (some s) _ v.written v.is_written) [
      | inl (kept, _) ↦ cc (is_kept-false (figure_at db product.id date shift) _ _ h, kept)
      | inr (_, q, is_override, written) ↦
          let on_row =
            ap (λ (f : DailyFigure). f.opening_base_qty) v.is_finished.1
            ∙ ap (λ (f : DailyFigure). f.opening_base_qty) written in
          let of_source =
            ap (λ (f : DailyFigure). f.opening_stock_source) v.is_finished.1
            ∙ ap (λ (f : DailyFigure). f.opening_stock_source) written in
          let (_, of_product, on_date, in_shift) =
            figure_at_some product.id date shift db'.figures saved found in
          let trusted : is_trusted_anchor db' saved ≡ true = elim source [
            | inl corrected ↦ unconditional-trusted db' saved (rw (of_source ∙ corrected) refl)
            | inr (first, no_prior) ↦ rw v.is_committed (
                is_trusted_anchor-commit db _ _ _ saved saved
                ∙ first-trusted db saved product.id date shift (of_source ∙ first)
                    (of_product, on_date, in_shift)
                    (no_prior-idle db product.id date shift _ no_prior))
          ] in
          opening_base_qty_at-trusted db' product.id date shift saved found trusted ∙ on_row ∙ base
    ]
