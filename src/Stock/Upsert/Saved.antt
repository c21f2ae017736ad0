-- ===== src/Stock/Upsert/Saved.antt =====
-- stock_service.py, `upsert_daily_figure`: what a save that succeeds has written.
use daily_figures.Common.{
  ℕ, ◌≡◌, ◌⊎◌, refl, sym, ◌∙◌, ap, inl, inr, Bool, true, false, Option, some, String, ℤ,
  Option-cases, Result, ok, raise, pos, Result-cases,
}
use daily_figures.Packaging.{PackagingRule, Quantity, from_base_units}
use daily_figures.Records.{
  Shift, DailyFigure, OpeningSource, derived, Product, current_packaging_rule, User,
}
use daily_figures.Stock.Database.{Database}
use daily_figures.Stock.Anchor.{figure_at}
use daily_figures.Stock.Anchor.Latest.{AreDistinct, figure_at_some}
use daily_figures.Stock.Upsert.Rows.{AreBelow}
use daily_figures.Stock.Upsert.Stored.{IsAtPeriod, IsAtPeriod-stored}
use daily_figures.Stock.Upsert.{
  StockError, OpeningInput, Submitted, submit, choose_opening, write_opening, new_figure,
  figure_or_new, opening_locked_at, finish_row, correction_audit, commit_row, is_kept,
  is_explicit_edit, split_or_zero, set_opening, quantity_of, save_opening, upsert_daily_figure,
}

abbrev value : {E A : Type 0} → A → Result E A → A
value a (ok b) = b
value a (raise e) = a

abbrev pub value_of : Result StockError (OpeningSource × ℤ) → OpeningSource × ℤ
value_of (ok r) = r
value_of (raise e) = (derived, pos 0)

-- A save leaves a row's key, and what identifies its period, alone.
pub record IsSameRow (f g : DailyFigure) : Type 0 where
  pub same_id : g.id ≡ f.id
  pub same_product : g.product_id ≡ f.product_id
  pub same_date : g.date ≡ f.date
  pub same_shift : g.shift ≡ f.shift

is_same_row : (f : DailyFigure) → IsSameRow f f
is_same_row f = record { same_id = refl; same_product = refl; same_date = refl; same_shift = refl }

-- What is written: the row as it was, or the row with the chosen opening.
pub write_opening_ok :
    (rule : PackagingRule) (keep : Bool) (source : OpeningSource) (base : ℤ) (s : Option Submitted)
    (f w : DailyFigure)
    → write_opening rule keep (source, base) s f ≡ ok w
    → ((keep ≡ true) × (w ≡ f))
      ⊎ ((keep ≡ false)
          × (q : Quantity) × (is_override : Bool) × (w ≡ set_opening f q base source is_override))
unfolding write_opening
write_opening_ok rule true source base s f w e = inl (refl, ap (value f) (sym e))
write_opening_ok rule false derived base s f w e =
    elim (Result-cases (split_or_zero (from_base_units base rule))) [
      | inl (q, split) ↦ inr (refl, q, false, sym (ap (value f) (rw split at e)))
      | inr (err, failed) ↦ cc (rw failed at e)
    ]
write_opening_ok rule false source base s f w e =
    inr (refl, quantity_of s, true, sym (ap (value f) e))

write_opening-IsSameRow :
    (rule : PackagingRule) (keep : Bool) (source : OpeningSource) (base : ℤ) (s : Option Submitted)
    (f w : DailyFigure)
    → write_opening rule keep (source, base) s f ≡ ok w
    → IsSameRow f w
write_opening-IsSameRow rule keep source base s f w e =
    elim (write_opening_ok rule keep source base s f w e) [
      | inl (_, same) ↦ rw same (is_same_row f)
      | inr (_, q, is_override, new) ↦
          rw new
            (record { same_id = refl; same_product = refl; same_date = refl; same_shift = refl })
    ]

-- A save that succeeds, step by step.
pub record Saving (db : Database) (rule : PackagingRule) (product : Product) (date : ℕ)
    (shift : Shift) (figure : Option DailyFigure) (opening_locked : Option ℤ)
    (submitted : Option Submitted) (user : User) (explicit_edit : Bool) (reason : Option String)
    (db' : Database) (saved : DailyFigure) : Type 0 where
  pub source : OpeningSource
  pub base : ℤ
  pub chosen :
      choose_opening opening_locked submitted explicit_edit reason figure ≡ ok (source, base)
  pub written : DailyFigure
  pub is_written :
      write_opening rule
        (is_kept figure explicit_edit opening_locked)
        (source, base)
        submitted
        (figure_or_new db product.id date shift user figure)
      ≡ ok written
  pub is_finished : (notes : Option String) × (saved ≡ finish_row rule notes user written)
  pub is_committed :
      db'
      ≡ commit_row db figure explicit_edit
          (correction_audit opening_locked figure reason user saved)
          saved

pub save_opening_ok :
    (db : Database) (rule : PackagingRule) (product : Product) (date : ℕ) (shift : Shift)
    (figure : Option DailyFigure) (opening_locked : Option ℤ) (submitted : Option Submitted)
    (notes : Option String) (user : User) (explicit_edit : Bool) (reason : Option String)
    (db' : Database) (saved : DailyFigure)
    → save_opening db rule product date shift figure opening_locked submitted notes user
        explicit_edit reason
      ≡ ok (db', saved)
    → Saving db rule product date shift figure opening_locked submitted user explicit_edit reason
        db' saved
unfolding save_opening
save_opening_ok db rule product date shift figure opening_locked submitted notes user explicit_edit
      reason db' saved e =
    elim (Result-cases (choose_opening opening_locked submitted explicit_edit reason figure)) [
      | inr (err, failed) ↦ cc (rw failed at e)
      | inl ((source, base), chosen) ↦
          elim (Result-cases (
            write_opening rule (is_kept figure explicit_edit opening_locked) (source, base)
              submitted (figure_or_new db product.id date shift user figure))) [
                | inr (err, failed) ↦ cc (rw failed at (rw chosen at e))
                | inl (w, is_written) ↦
                    let both = ap (value (db, w)) (rw is_written at (rw chosen at e)) in
                    let saved_eq = ap (λ (r : Database × DailyFigure). r.1) both in
                    record {
                      source = source;
                      base = base;
                      chosen = chosen;
                      written = w;
                      is_written = is_written;
                      is_finished = (notes, sym saved_eq);
                      is_committed =
                          sym (ap (λ (r : Database × DailyFigure). r.0) both)
                          ∙ ap
                              (λ (r : DailyFigure).
                                commit_row db figure explicit_edit
                                  (correction_audit opening_locked figure reason user r) r)
                              saved_eq;
                    }
              ]
    ]

Saving-IsAtPeriod :
    (db : Database) (rule : PackagingRule) (product : Product) (date : ℕ) (shift : Shift)
    (figure : Option DailyFigure) (opening_locked : Option ℤ) (submitted : Option Submitted)
    (user : User) (explicit_edit : Bool) (reason : Option String) (db' : Database)
    (saved : DailyFigure)
    → figure_at db product.id date shift ≡ figure
    → Saving db rule product date shift figure opening_locked submitted user explicit_edit reason
        db' saved
    → IsAtPeriod db product.id date shift saved
Saving-IsAtPeriod db rule product date shift figure opening_locked submitted user explicit_edit
      reason db' saved at_period s =
    let w = write_opening-IsSameRow rule _ s.source s.base submitted _ s.written s.is_written in
    let e = s.is_finished.1 in
    elim (Option-cases figure) [
      | inl missing ↦
          let w' : IsSameRow (new_figure db product.id date shift user) s.written =
            rw missing at w in
          record {
            at_product = ap (λ (r : DailyFigure). r.product_id) e ∙ w'.same_product;
            at_date = ap (λ (r : DailyFigure). r.date) e ∙ w'.same_date;
            at_shift = ap (λ (r : DailyFigure). r.shift) e ∙ w'.same_shift;
            keeps_id = λ f found. cc (at_period, missing, found);
            new_id = λ _. ap (λ (r : DailyFigure). r.id) e ∙ w'.same_id;
          }
      | inr (f, found) ↦
          let w' : IsSameRow f s.written = rw found at w in
          let (_, of_product, on_date, in_shift) =
            figure_at_some product.id date shift db.figures f (at_period ∙ found) in
          record {
            at_product = ap (λ (r : DailyFigure). r.product_id) e ∙ w'.same_product ∙ of_product;
            at_date = ap (λ (r : DailyFigure). r.date) e ∙ w'.same_date ∙ on_date;
            at_shift = ap (λ (r : DailyFigure). r.shift) e ∙ w'.same_shift ∙ in_shift;
            keeps_id = λ g found'. cc (at_period, found, found', e, w'.same_id);
            new_id = λ missing. cc (at_period, missing, found);
          }
    ]

pub Saving-stored :
    (db : Database) (rule : PackagingRule) (product : Product) (date : ℕ) (shift : Shift)
    (submitted : Option Submitted) (user : User) (explicit_edit : Bool) (reason : Option String)
    (db' : Database) (saved : DailyFigure)
    → AreDistinct db.figures
    → AreBelow db.next_id db.figures
    → Saving db rule product date shift
        (figure_at db product.id date shift)
        (opening_locked_at db product.id date shift)
        submitted
        user
        explicit_edit
        reason
        db'
        saved
    → AreDistinct db'.figures
      × AreBelow db'.next_id db'.figures
      × (figure_at db' product.id date shift ≡ some saved)
Saving-stored db rule product date shift submitted user explicit_edit reason db' saved d b s =
    let at =
      Saving-IsAtPeriod db rule product date shift _ _ submitted user explicit_edit reason db' saved
        refl s in
    rw s.is_committed (
      IsAtPeriod-stored db product.id date shift saved (figure_at db product.id date shift)
        explicit_edit
        (correction_audit (opening_locked_at db product.id date shift)
          (figure_at db product.id date shift) reason user saved)
        d b at refl)

pub upsert_daily_figure_ok :
    (db : Database) (now : ℕ) (rule : PackagingRule) (product : Product) (date : ℕ) (shift : Shift)
    (opening : Option OpeningInput) (submitted : Option Submitted) (notes : Option String)
    (user : User) (explicitly_edited : Bool) (reason : Option String) (db' : Database)
    (saved : DailyFigure)
    → current_packaging_rule product now ≡ some rule
    → submit opening rule ≡ ok submitted
    → upsert_daily_figure db now product date shift opening notes user explicitly_edited reason
      ≡ ok (db', saved)
    → Saving db rule product date shift
        (figure_at db product.id date shift)
        (opening_locked_at db product.id date shift)
        submitted
        user
        (is_explicit_edit db user explicitly_edited submitted)
        reason
        db'
        saved
unfolding upsert_daily_figure
upsert_daily_figure_ok db now rule product date shift opening submitted notes user explicitly_edited
      reason db' saved r s e =
    save_opening_ok db rule product date shift _ _ submitted notes user _ reason db' saved
      (rw s at (rw (r, upsert_daily_figure) at e))

-- A save that succeeds keeps the table's constraints and the engine's next key above every key, and
-- the row that it returns is the one row of its product and period.
pub upsert_daily_figure-AreDistinct :
    (db : Database) (now : ℕ) (product : Product) (date : ℕ) (shift : Shift)
    (opening : Option OpeningInput) (notes : Option String) (user : User) (explicitly_edited : Bool)
    (reason : Option String) (db' : Database) (saved : DailyFigure)
    → AreDistinct db.figures
    → AreBelow db.next_id db.figures
    → upsert_daily_figure db now product date shift opening notes user explicitly_edited reason
      ≡ ok (db', saved)
    → AreDistinct db'.figures
      × AreBelow db'.next_id db'.figures
      × (figure_at db' product.id date shift ≡ some saved)
unfolding upsert_daily_figure
upsert_daily_figure-AreDistinct db now product date shift opening notes user explicitly_edited
      reason db' saved d b e =
    elim (Option-cases (current_packaging_rule product now)) [
      | inl missing ↦ cc (rw (missing, upsert_daily_figure) at e)
      | inr (rule, r) ↦ elim (Result-cases (submit opening rule)) [
        | inr (err, failed) ↦ cc (rw failed at (rw (r, upsert_daily_figure) at e))
        | inl (submitted, s) ↦
            Saving-stored db rule product date shift submitted user _ reason db' saved d b (
              upsert_daily_figure_ok db now rule product date shift opening submitted notes user
                explicitly_edited reason db' saved r s e)
      ]
    ]
