-- ===== src/Stock/Anchor/Latest.antt =====
-- stock_service.py, `_find_anchor_figure`: what the sort and the scan find.
use mathlib.Core.Path.{ap₂}
use daily_figures.Common.{
  ℕ, ◌≤◌, ◌<◌, ◌≡◌, ◌≢◌, refl, sym, ◌∙◌, ap, inl, inr, true, ◌&&◌, Option, none, some, List, [],
  ◌∷◌, ◌==◌, ==_iff, Bool-cases, Option-cases, find_first, Member, first_of_sorted-Member,
  first_of_sorted-greatest, first_of_sorted-none, arith,
}
use daily_figures.Records.{Shift, day, night, same_shift, sort_key, DailyFigure, is_anchor_eligible}
use daily_figures.Stock.Database.{Database}
use daily_figures.Stock.Anchor.{
  figure_key, figure_at, is_figure_at, id_of, is_trusted_anchor, is_not_excluded, is_candidate,
  find_anchor_figure,
}

-- The table's constraints: no two rows have one id, or one product, date and shift.
abbrev pub IsOther : DailyFigure → DailyFigure → Type 0
IsOther f g = (f.id ≢ g.id) × (f.product_id ≡ g.product_id → figure_key f ≢ figure_key g)

abbrev pub AreOthers : DailyFigure → List DailyFigure → Type 0
AreOthers f [] = Unit
AreOthers f (g ∷ gs) = IsOther f g × AreOthers f gs

abbrev pub AreDistinct : List DailyFigure → Type 0
AreDistinct [] = Unit
AreDistinct (f ∷ fs) = AreOthers f fs × AreDistinct fs

AreOthers-Member :
    (f g : DailyFigure) (fs : List DailyFigure) → AreOthers f fs → Member g fs → IsOther f g
AreOthers-Member f g [] o m = absurd m
AreOthers-Member f g (h ∷ fs) o (inl e) = rw e o.0
AreOthers-Member f g (h ∷ fs) o (inr m) = AreOthers-Member f g fs o.1 m

-- Rows with one id are one row, and so are rows with one product and one period.
pub eq_of_id :
    (f g : DailyFigure) (fs : List DailyFigure)
    → AreDistinct fs
    → Member f fs
    → Member g fs
    → f.id ≡ g.id
    → f ≡ g
eq_of_id f g [] d m n e = absurd m
eq_of_id f g (h ∷ fs) d (inl x) (inl y) e = x ∙ sym y
eq_of_id f g (h ∷ fs) d (inl x) (inr y) e =
    absurd ((AreOthers-Member h g fs d.0 y).0 (sym (ap (λ (r : DailyFigure). r.id) x) ∙ e))
eq_of_id f g (h ∷ fs) d (inr x) (inl y) e =
    absurd ((AreOthers-Member h f fs d.0 x).0 (sym (e ∙ ap (λ (r : DailyFigure). r.id) y)))
eq_of_id f g (h ∷ fs) d (inr x) (inr y) e = eq_of_id f g fs d.1 x y e

pub eq_of_period :
    (f g : DailyFigure) (fs : List DailyFigure)
    → AreDistinct fs
    → Member f fs
    → Member g fs
    → f.product_id ≡ g.product_id
    → figure_key f ≡ figure_key g
    → f ≡ g
eq_of_period f g [] d m n p k = absurd m
eq_of_period f g (h ∷ fs) d (inl x) (inl y) p k = x ∙ sym y
eq_of_period f g (h ∷ fs) d (inl x) (inr y) p k = absurd (
    (AreOthers-Member h g fs d.0 y).1 (sym (ap (λ (r : DailyFigure). r.product_id) x) ∙ p)
      (sym (ap figure_key x) ∙ k))
eq_of_period f g (h ∷ fs) d (inr x) (inl y) p k = absurd (
    (AreOthers-Member h f fs d.0 x).1 (sym (p ∙ ap (λ (r : DailyFigure). r.product_id) y))
      (sym (k ∙ ap figure_key y)))
eq_of_period f g (h ∷ fs) d (inr x) (inr y) p k = eq_of_period f g fs d.1 x y p k

same_shift-eq : (s t : Shift) → same_shift s t ≡ true → s ≡ t
same_shift-eq day day h = refl
same_shift-eq night night h = refl
same_shift-eq day night h = cc
same_shift-eq night day h = cc

-- What `figure_at` finds, and that it finds every row of the period.
pub figure_at_some :
    (product_id date : ℕ) (s : Shift) (fs : List DailyFigure) (f : DailyFigure)
    → find_first (is_figure_at product_id date s) fs ≡ some f
    → Member f fs × (f.product_id ≡ product_id) × (f.date ≡ date) × (f.shift ≡ s)
figure_at_some product_id date s [] f e = absurd (cc)
figure_at_some product_id date s (g ∷ fs) f e =
    ground (arith, figure_at_some product_id date s fs f, same_shift-eq g.shift s)

pub is_figure_at_key :
    (product_id date : ℕ) (s : Shift) (f : DailyFigure)
    → f.product_id ≡ product_id
    → figure_key f ≡ sort_key date s
    → is_figure_at product_id date s f ≡ true
is_figure_at_key product_id date s f p k = at_shift f.shift s k
  where
    at_shift :
        (t s : Shift)
        → sort_key f.date t ≡ sort_key date s
        → (f.product_id == product_id && (f.date == date && same_shift t s)) ≡ true
    at_shift day day h = ground arith
    at_shift day night h = ground arith
    at_shift night day h = ground arith
    at_shift night night h = ground arith

pub figure_at_none :
    (product_id date : ℕ) (s : Shift) (fs : List DailyFigure) (f : DailyFigure)
    → find_first (is_figure_at product_id date s) fs ≡ none
    → Member f fs
    → f.product_id ≡ product_id
    → figure_key f ≢ sort_key date s
figure_at_none product_id date s [] f e m p k = absurd m
figure_at_none product_id date s (g ∷ fs) f e (inl same) p k =
    let here : is_figure_at product_id date s g ≡ true =
      rw same at (is_figure_at_key product_id date s f p k) in
    cc (rw here at e)
figure_at_none product_id date s (g ∷ fs) f e (inr m) p k =
    elim (Bool-cases (is_figure_at product_id date s g)) [
      | inl here ↦ cc (rw here at e)
      | inr other ↦ figure_at_none product_id date s fs f (rw other at e) m p k
    ]

-- A trusted row of the product, before a key.
pub record IsAnchorBefore (db : Database) (product_id key : ℕ) (f : DailyFigure) : Type 0 where
  pub stored : Member f db.figures
  pub of_product : f.product_id ≡ product_id
  pub trusted : is_trusted_anchor db f ≡ true
  pub before : figure_key f < key

module _ (db : Database) where
  trusted-eligible :
      (f : DailyFigure)
      → is_trusted_anchor db f ≡ true
      → is_anchor_eligible f.opening_stock_source ≡ true
  unfolding is_trusted_anchor
  trusted-eligible f h = ground arith

  module _ (product_id date : ℕ) (s : Shift) where
    -- A row before the period is not the one that the search leaves out.
    not_the_figure :
        (f : DailyFigure) (o : Option DailyFigure)
        → AreDistinct db.figures
        → figure_at db product_id date s ≡ o
        → Member f db.figures
        → figure_key f < sort_key date s
        → is_not_excluded db (id_of o) f ≡ true
    not_the_figure f none d e m h = refl
    not_the_figure f (some g) d e m h = elim (Bool-cases (f.id == g.id)) [
      | inl same ↦
          let (m', _, at_date, at_shift) = figure_at_some product_id date s db.figures g e in
          let k : figure_key g ≡ sort_key date s = ap₂ sort_key at_date at_shift in
          let k' : figure_key f ≡ figure_key g =
            ap figure_key (eq_of_id f g db.figures d m m' ((==_iff f.id g.id).0 same)) in
          absurd (omega arith)
      | inr other ↦ rw other
    ]

    is_candidate_of :
        (f : DailyFigure)
        → AreDistinct db.figures
        → IsAnchorBefore db product_id (sort_key date s) f
        → is_candidate db product_id date s (id_of (figure_at db product_id date s)) f ≡ true
    is_candidate_of f d a = ground (
      arith,
      trusted-eligible f a.trusted,
      not_the_figure f (figure_at db product_id date s) d refl a.stored a.before,
    )

    -- The search returns a trusted row of the product before the period, and no such row is later;
    -- where it returns nothing there is no such row.
    pub find_anchor_figure-some :
        (f : DailyFigure)
        → AreDistinct db.figures
        → find_anchor_figure db product_id date s (id_of (figure_at db product_id date s)) ≡ some f
        → IsAnchorBefore db product_id (sort_key date s) f
          × ((g : DailyFigure)
              → IsAnchorBefore db product_id (sort_key date s) g
              → figure_key g ≤ figure_key f)
    unfolding find_anchor_figure
    find_anchor_figure-some f d e =
        let (m, c, t) = first_of_sorted-Member figure_key (is_trusted_anchor db) _ db.figures f e in
        (
          record { stored = m; of_product = ground arith; trusted = t; before = ground arith },
          λ g a.
              first_of_sorted-greatest figure_key (is_trusted_anchor db) _ db.figures f g e a.stored
                (is_candidate_of g d a) a.trusted,
        )

    pub find_anchor_figure-none :
        (f : DailyFigure)
        → AreDistinct db.figures
        → find_anchor_figure db product_id date s (id_of (figure_at db product_id date s)) ≡ none
        → ¬ IsAnchorBefore db product_id (sort_key date s) f
    unfolding find_anchor_figure
    find_anchor_figure-none f d e a = cc (
      first_of_sorted-none figure_key (is_trusted_anchor db) _ db.figures f e a.stored
          (is_candidate_of f d a),
      a.trusted,
    )

    -- In a table that keeps its constraints, if the product has a trusted row before the period, the
    -- search returns one, and it is at least as late as that row.
    pub find_anchor_figure_latest :
        (g : DailyFigure)
        → AreDistinct db.figures
        → IsAnchorBefore db product_id (sort_key date s) g
        → (f : DailyFigure) × (find_anchor_figure db product_id date s
              (id_of (figure_at db product_id date s))
            ≡ some f)
          × IsAnchorBefore db product_id (sort_key date s) f
          × (figure_key g ≤ figure_key f)
    find_anchor_figure_latest g d a =
        elim (Option-cases
          (find_anchor_figure db product_id date s (id_of (figure_at db product_id date s)))) [
            | inl missing ↦ absurd (find_anchor_figure-none g d missing a)
            | inr (f, found) ↦
                let (is_anchor, latest) = find_anchor_figure-some f d found in
                (f, found, is_anchor, latest g a)
          ]
