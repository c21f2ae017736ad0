-- ===== src/Stock/Upsert/Rows.antt =====
-- The table daily_figures with a row put in: the search for the row's period, and the keys of the table.
use daily_figures.Common.{
  ℕ, ◌≤◌, ◌<◌, ◌≡◌, ◌⊎◌, refl, sym, ◌∙◌, inl, inr, Bool, true, false, some, List, [], ◌∷◌, ◌==◌,
  ==_iff, Bool-cases, find_first, Member, arith,
}
use daily_figures.Records.{DailyFigure}
use daily_figures.Stock.Anchor.{figure_key}
use daily_figures.Stock.Anchor.Latest.{IsOther, AreOthers, AreDistinct}
use daily_figures.Stock.Upsert.{put_figure}

-- The search for the row of a period finds the row that was put there.
pub find_first-put_figure :
    (test : DailyFigure → Bool) (saved : DailyFigure) (fs : List DailyFigure)
    → test saved ≡ true
    → ((f : DailyFigure) → find_first test fs ≡ some f → f.id ≡ saved.id)
    → find_first test (put_figure saved fs) ≡ some saved
find_first-put_figure test saved [] t h = rw t
find_first-put_figure test saved (g ∷ gs) t h = elim (Bool-cases (g.id == saved.id)) [
  | inl here ↦ rw here (rw t)
  | inr elsewhere ↦ elim (Bool-cases (test g)) [
    | inl found ↦ ground (arith, h g (rw found))
    | inr other ↦
        rw elsewhere (rw other (find_first-put_figure test saved gs t (λ f e. h f (rw other e))))
  ]
]

-- The search for the row of another period finds what it found before.
pub find_first-put_figure_other :
    (test : DailyFigure → Bool) (saved : DailyFigure) (fs : List DailyFigure)
    → test saved ≡ false
    → ((g : DailyFigure) → Member g fs → g.id ≡ saved.id → test g ≡ false)
    → find_first test (put_figure saved fs) ≡ find_first test fs
find_first-put_figure_other test saved [] t h = rw t refl
find_first-put_figure_other test saved (g ∷ gs) t h = elim (Bool-cases (g.id == saved.id)) [
  | inl here ↦ rw here (rw (t, h g (inl refl) ((==_iff g.id saved.id).0 here)) refl)
  | inr elsewhere ↦
      rw elsewhere (rw (find_first-put_figure_other test saved gs t (λ f m. h f (inr m))) refl)
]

-- The engine's next key is above every key of the table.
abbrev pub AreBelow : ℕ → List DailyFigure → Type 0
AreBelow n [] = Unit
AreBelow n (f ∷ fs) = (f.id < n) × AreBelow n fs

pub AreBelow-Member :
    (n : ℕ) (f : DailyFigure) (fs : List DailyFigure) → AreBelow n fs → Member f fs → f.id < n
AreBelow-Member n f [] b m = absurd m
AreBelow-Member n f (g ∷ fs) b (inl e) = rw e b.0
AreBelow-Member n f (g ∷ fs) b (inr m) = AreBelow-Member n f fs b.1 m

pub AreBelow-put_figure :
    (n n' : ℕ) (saved : DailyFigure) (fs : List DailyFigure)
    → n ≤ n'
    → saved.id < n'
    → AreBelow n fs
    → AreBelow n' (put_figure saved fs)
AreBelow-put_figure n n' saved [] le lt b = (lt, tt)
AreBelow-put_figure n n' saved (g ∷ gs) le lt b = elim (Bool-cases (g.id == saved.id)) [
  | inl here ↦ rw here (lt, AreBelow-weaken gs b.1)
  | inr elsewhere ↦ rw elsewhere (omega (arith, b.0), AreBelow-put_figure n n' saved gs le lt b.1)
]
  where
    AreBelow-weaken : (fs : List DailyFigure) → AreBelow n fs → AreBelow n' fs
    AreBelow-weaken [] b = tt
    AreBelow-weaken (f ∷ fs) b = (omega (arith, b.0), AreBelow-weaken fs b.1)

-- A row of the table is the one that `saved` replaces, or has another key and another period.
abbrev pub IsReplacedOrOther : DailyFigure → DailyFigure → Type 0
IsReplacedOrOther saved g =
    ((g.id ≡ saved.id) × (g.product_id ≡ saved.product_id) × (figure_key g ≡ figure_key saved))
    ⊎ IsOther g saved

IsOther-replace :
    (h g saved : DailyFigure)
    → (g.id ≡ saved.id) × (g.product_id ≡ saved.product_id) × (figure_key g ≡ figure_key saved)
    → IsOther h g
    → IsOther h saved
IsOther-replace h g saved (i, p, k) o = (λ e. o.0 (e ∙ sym i), λ e k'. o.1 (e ∙ sym p) (k' ∙ sym k))

AreOthers-replace :
    (g saved : DailyFigure) (fs : List DailyFigure)
    → (g.id ≡ saved.id) × (g.product_id ≡ saved.product_id) × (figure_key g ≡ figure_key saved)
    → AreOthers g fs
    → AreOthers saved fs
AreOthers-replace g saved [] r o = tt
AreOthers-replace g saved (f ∷ fs) r o =
    let (i, p, k) = r in
    ((λ e. o.0.0 (i ∙ e), λ e k'. o.0.1 (p ∙ e) (k ∙ k')), AreOthers-replace g saved fs r o.1)

AreOthers-put_figure :
    (h saved : DailyFigure) (fs : List DailyFigure)
    → IsOther h saved
    → AreOthers h fs
    → AreOthers h (put_figure saved fs)
AreOthers-put_figure h saved [] o os = (o, tt)
AreOthers-put_figure h saved (g ∷ gs) o os = elim (Bool-cases (g.id == saved.id)) [
  | inl here ↦ rw here (o, os.1)
  | inr elsewhere ↦ rw elsewhere (os.0, AreOthers-put_figure h saved gs o os.1)
]

pub AreDistinct-put_figure :
    (saved : DailyFigure) (fs : List DailyFigure)
    → AreDistinct fs
    → ((g : DailyFigure) → Member g fs → IsReplacedOrOther saved g)
    → AreDistinct (put_figure saved fs)
AreDistinct-put_figure saved [] d h = (tt, tt)
AreDistinct-put_figure saved (g ∷ gs) d h = elim (Bool-cases (g.id == saved.id)) [
  | inl here ↦ elim (h g (inl refl)) [
    | inl r ↦ rw here (AreOthers-replace g saved gs r d.0, d.1)
    | inr o ↦ absurd (o.0 ((==_iff g.id saved.id).0 here))
  ]
  | inr elsewhere ↦ elim (h g (inl refl)) [
    | inl r ↦ absurd (cc ((==_iff g.id saved.id).1 r.0))
    | inr o ↦ rw elsewhere (
      AreOthers-put_figure g saved gs o d.0,
      AreDistinct-put_figure saved gs d.1 (λ f m. h f (inr m)),
    )
  ]
]
