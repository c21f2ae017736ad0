-- ===== src/Stock/Upsert/Stored.antt =====
-- stock_service.py: the table daily_figures after a row is written for a period.
use mathlib.Core.Path.{ap₂}
use daily_figures.Common.{
  ℕ, ◌≡◌, ◌≢◌, refl, sym, ◌∙◌, ap, inl, inr, Bool, false, Option, none, some, ◌==◌, ==_iff,
  Bool-cases, Option-cases, find_first, Member, arith,
}
use daily_figures.Records.{Shift, sort_key, DailyFigure}
use daily_figures.Stock.Database.{Database, AuditEntry}
use daily_figures.Stock.Anchor.{figure_key, figure_at, is_figure_at}
use daily_figures.Stock.Anchor.Latest.{
  AreDistinct, figure_at_some, figure_at_none, eq_of_id, eq_of_period, is_figure_at_key,
}
use daily_figures.Stock.Upsert.Rows.{
  find_first-put_figure, find_first-put_figure_other, AreBelow, AreBelow-Member,
  AreBelow-put_figure, IsReplacedOrOther, AreDistinct-put_figure,
}
use daily_figures.Stock.Upsert.{put_figure, next_id_after, commit_row}

-- The row that is written is at the period, and has the key of the row that was found there.
pub record IsAtPeriod (db : Database) (product_id date : ℕ) (shift : Shift) (saved : DailyFigure)
    : Type 0 where
  pub at_product : saved.product_id ≡ product_id
  pub at_date : saved.date ≡ date
  pub at_shift : saved.shift ≡ shift
  pub keeps_id : (f : DailyFigure) → figure_at db product_id date shift ≡ some f → f.id ≡ saved.id
  pub new_id : figure_at db product_id date shift ≡ none → saved.id ≡ db.next_id

-- Each row of the table is the one that a save replaces, or another.
pub saved-IsReplacedOrOther :
    (db : Database) (product_id date : ℕ) (shift : Shift) (saved : DailyFigure)
    → AreDistinct db.figures
    → AreBelow db.next_id db.figures
    → IsAtPeriod db product_id date shift saved
    → (g : DailyFigure) → Member g db.figures
    → IsReplacedOrOther saved g
saved-IsReplacedOrOther db product_id date shift saved d b s g m =
    let k : figure_key saved ≡ sort_key date shift = ap₂ sort_key s.at_date s.at_shift in
    elim (Option-cases (figure_at db product_id date shift)) [
      | inl missing ↦ inr (
        λ e. absurd (omega (arith, s.new_id missing, AreBelow-Member db.next_id g db.figures b m)),
        λ p k'.
            figure_at_none product_id date shift db.figures g missing m (p ∙ s.at_product) (k' ∙ k),
      )
      | inr (f, found) ↦
          let (m', of_product, on_date, in_shift) =
            figure_at_some product_id date shift db.figures f found in
          let kf : figure_key f ≡ sort_key date shift = ap₂ sort_key on_date in_shift in
          let replaced : g ≡ f → IsReplacedOrOther saved g =
            λ e. rw e (inl (s.keeps_id f found, of_product ∙ sym s.at_product, kf ∙ sym k)) in
          elim (Bool-cases (g.id == f.id)) [
            | inl same ↦ replaced (eq_of_id g f db.figures d m m' ((==_iff g.id f.id).0 same))
            | inr other ↦ inr (
              λ e. absurd (cc ((==_iff g.id f.id).1 (e ∙ sym (s.keeps_id f found)), other)),
              λ p k'.
                  let e =
                    eq_of_period g f db.figures d m m' (p ∙ s.at_product ∙ sym of_product)
                      (k' ∙ k ∙ sym kf) in
                  absurd (cc ((==_iff g.id f.id).1 (ap (λ (r : DailyFigure). r.id) e), other)),
            )
          ]
    ]

-- What holds of the table after a row is written for a period.
pub IsAtPeriod-stored :
    (db : Database) (product_id date : ℕ) (shift : Shift) (saved : DailyFigure)
    (figure : Option DailyFigure) (explicit_edit : Bool) (audit : AuditEntry)
    → AreDistinct db.figures
    → AreBelow db.next_id db.figures
    → IsAtPeriod db product_id date shift saved
    → figure_at db product_id date shift ≡ figure
    → AreDistinct (put_figure saved db.figures)
      × AreBelow (next_id_after figure db.next_id) (put_figure saved db.figures)
      × (figure_at (commit_row db figure explicit_edit audit saved) product_id date shift
          ≡ some saved)
IsAtPeriod-stored db product_id date shift saved figure explicit_edit audit d b at e =
    let below : AreBelow (next_id_after (figure_at db product_id date shift) db.next_id)
        (put_figure saved db.figures) =
      elim (Option-cases (figure_at db product_id date shift)) [
        | inl missing ↦ rw missing (
            AreBelow-put_figure db.next_id _ saved db.figures (omega arith)
              (omega (arith, at.new_id missing)) b)
        | inr (f, found) ↦
            let m = (figure_at_some product_id date shift db.figures f found).0 in
            rw found (
              AreBelow-put_figure db.next_id _ saved db.figures (omega arith)
                (omega (arith, at.keeps_id f found, AreBelow-Member db.next_id f db.figures b m)) b)
      ] in
    (
      AreDistinct-put_figure saved db.figures d
          (saved-IsReplacedOrOther db product_id date shift saved d b at),
      rw (← e) below,
      find_first-put_figure (is_figure_at product_id date shift) saved db.figures
          (is_figure_at_key product_id date shift saved at.at_product
            (ap₂ sort_key at.at_date at.at_shift))
          at.keeps_id,
    )

-- The row of another product for a period is found as before.
pub IsAtPeriod-other :
    (db : Database) (product_id other date : ℕ) (shift : Shift) (saved : DailyFigure)
    → AreDistinct db.figures
    → AreBelow db.next_id db.figures
    → IsAtPeriod db product_id date shift saved
    → other ≢ product_id
    → find_first (is_figure_at other date shift) (put_figure saved db.figures)
      ≡ figure_at db other date shift
IsAtPeriod-other db product_id other date shift saved d b at differ =
    find_first-put_figure_other (is_figure_at other date shift) saved db.figures
      (not_at saved at.at_product)
      (λ g m e. elim (saved-IsReplacedOrOther db product_id date shift saved d b at g m) [
        | inl r ↦ not_at g (r.1 ∙ at.at_product)
        | inr o ↦ absurd (o.0 e)
      ])
  where
    not_at : (f : DailyFigure) → f.product_id ≡ product_id → is_figure_at other date shift f ≡ false
    not_at f e = elim (Bool-cases (f.product_id == other)) [
      | inl same ↦ absurd (differ (sym ((==_iff f.product_id other).0 same) ∙ e))
      | inr off ↦ rw off refl
    ]
