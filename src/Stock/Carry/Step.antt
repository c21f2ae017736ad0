-- ===== src/Stock/Carry/Step.antt =====
-- stock_service.py: what a balance gains from one period to the next.
use mathlib.Core.Path.{ap₂}
use daily_figures.Common.{
  ℕ, ◌-◌, ◌≤◌, ◌<◌, suc, ◌≡◌, refl, sym, ◌∙◌, ap, Bool, true, ◌&&◌, List, [], ◌∷◌, ℤ, ◌+ℤ◌,
  int_laws, ◌==◌, leb, sum_where-congr, exists_where, arith,
}
use daily_figures.Records.{Shift, day, night, sort_key, DailyFigure}
use daily_figures.Stock.Database.{Database, Movement}
use daily_figures.Stock.Queries.{
  dispatched, produced, returned, adjusted, is_at_or_before, is_until,
  any_finalized_activity_at_or_before,
}
use daily_figures.Stock.Anchor.{
  prev_period_date, prev_period_shift, next_period_date, next_period_shift,
}
use daily_figures.Stock.Window.{
  key_of, day_key_of, is_within, is_figure_within, ◌⊕◌, Totals_eq, ⊕_exchange, no_movement-⊕,
  book_window-empty, legacy_window-empty, book_window, legacy_window, book_window-split,
  legacy_window-split,
}
use daily_figures.Stock.Carry.{Totals, no_movement, carry, movement_between_periods}
use daily_figures.Stock.Carry.Movement.{movement_between_periods-eq}

pub prev_period_date-next :
    (d : ℕ) (s : Shift) → prev_period_date (next_period_date d s) (next_period_shift s) ≡ d
prev_period_date-next d day = refl
prev_period_date-next d night = omega arith

pub prev_period_shift-next : (s : Shift) → prev_period_shift (next_period_shift s) ≡ s
prev_period_shift-next day = refl
prev_period_shift-next night = refl

abbrev pub prev_key : ℕ → Shift → ℕ
prev_key d s = sort_key (prev_period_date d s) (prev_period_shift s)

abbrev pub next_key : ℕ → Shift → ℕ
next_key d s = sort_key (next_period_date d s) (next_period_shift s)

-- A row before the next period is before this one, or in it.
pub key-le_of_lt_next :
    (d : ℕ) (s : Shift) (e : ℕ) (t : Shift)
    → sort_key e t < next_key d s
    → sort_key e t ≤ sort_key d s
key-le_of_lt_next d day e day h = omega arith
key-le_of_lt_next d day e night h = omega arith
key-le_of_lt_next d night e day h = omega arith
key-le_of_lt_next d night e night h = omega arith

pub key-lt_next : (d : ℕ) (s : Shift) → sort_key d s < next_key d s
key-lt_next d day = omega arith
key-lt_next d night = omega arith

-- The period after a row that is before this period is this one at the latest.
pub next_key-le :
    (d : ℕ) (s : Shift) (e : ℕ) (t : Shift)
    → sort_key e t < sort_key d s
    → next_key e t ≤ sort_key d s
next_key-le d day e day h = omega arith
next_key-le d day e night h = omega arith
next_key-le d night e day h = omega arith
next_key-le d night e night h = omega arith

-- No key lies between a period and the one before it.
is_within-prev :
    (from d : ℕ) (s : Shift) (product_id : ℕ) (m : Movement)
    → 0 < d
    → (is_within key_of product_id from (sort_key d s - 1) m
        ≡ is_within key_of product_id from (prev_key d s) m)
      × (is_within day_key_of product_id from (sort_key d s - 1) m
          ≡ is_within day_key_of product_id from (prev_key d s) m)
is_within-prev from d s product_id m h = (at_shift s m.shift, at_shift s day)
  where
    at_shift :
        (s t : Shift)
        → (m.product_id == product_id
            && (leb from (sort_key m.date t) && leb (sort_key m.date t) (sort_key d s - 1)))
          ≡ (m.product_id == product_id
              && (leb from (sort_key m.date t) && leb (sort_key m.date t) (prev_key d s)))
    at_shift day day = ground arith
    at_shift day night = ground arith
    at_shift night day = ground arith
    at_shift night night = ground arith

is_figure_within-prev :
    (from d : ℕ) (s : Shift) (product_id : ℕ) (f : DailyFigure)
    → 0 < d
    → is_figure_within product_id from (sort_key d s - 1) f
      ≡ is_figure_within product_id from (prev_key d s) f
is_figure_within-prev from d s product_id f h = at_shift s f.shift
  where
    at_shift :
        (s t : Shift)
        → (f.product_id == product_id
            && (leb from (sort_key f.date t) && leb (sort_key f.date t) (sort_key d s - 1)))
          ≡ (f.product_id == product_id
              && (leb from (sort_key f.date t) && leb (sort_key f.date t) (prev_key d s)))
    at_shift day day = ground arith
    at_shift day night = ground arith
    at_shift night day = ground arith
    at_shift night night = ground arith

pub carry-⊕ : (b : ℤ) (x y : Totals) → carry b (x ⊕ y) ≡ carry (carry b x) y
unfolding ◌⊕◌
carry-⊕ b x y = omega int_laws

module _ (db : Database) (product_id : ℕ) where
  -- What the books and the legacy columns hold in one period.
  abbrev pub period_totals : ℕ → Shift → Totals
  period_totals d s =
      book_window db product_id (sort_key d s) (sort_key d s)
      ⊕ legacy_window db product_id (sort_key d s) (sort_key d s)

  book_window-prev :
      (from d : ℕ) (s : Shift)
      → 0 < d
      → book_window db product_id from (sort_key d s - 1)
        ≡ book_window db product_id from (prev_key d s)
  unfolding book_window
  book_window-prev from d s h =
      let same : (xs : List Movement) → _ ≡ _ = λ xs.
        sum_where-congr _ _ (λ m. m.base_qty) xs
          (λ m. (is_within-prev from d s product_id m h).0) in
      Totals_eq _ _ (same (produced db))
        (sum_where-congr _ _ (λ m. m.base_qty) (returned db)
          (λ m. (is_within-prev from d s product_id m h).1))
        (ap₂ ◌+ℤ◌ (same (dispatched db)) (same (adjusted db)))

  legacy_window-prev :
      (from d : ℕ) (s : Shift)
      → 0 < d
      → legacy_window db product_id from (sort_key d s - 1)
        ≡ legacy_window db product_id from (prev_key d s)
  unfolding legacy_window
  legacy_window-prev from d s h =
      let same : (q : DailyFigure → ℤ) → _ ≡ _ = λ q.
        sum_where-congr _ _ q db.figures (λ f. is_figure_within-prev from d s product_id f h) in
      Totals_eq _ _ (same (λ f. f.production_base_qty)) (same (λ f. f.return_base_qty)) refl

  -- A range that reaches a period is the range that ends before it, and the period.
  pub movement_between_periods-step :
      (a : ℕ) (t : Shift) (d : ℕ) (s : Shift)
      → 0 < d
      → sort_key a t ≤ sort_key d s
      → movement_between_periods db product_id a t d s
        ≡ movement_between_periods db product_id a t (prev_period_date d s) (prev_period_shift s)
          ⊕ period_totals d s
  movement_between_periods-step a t d s h k =
      let k₀ = sort_key a t in
      let k₁ = sort_key d s in
      let back : suc (k₁ - 1) ≡ k₁ = omega arith in
      let book : book_window db product_id k₀ k₁
          ≡ book_window db product_id k₀ (prev_key d s) ⊕ book_window db product_id k₁ k₁ =
        rw (← book_window-prev k₀ d s h)
          (book_window-split db product_id k₀ (k₁ - 1) k₁ (omega arith) (omega arith) ∙ rw back) in
      let legacy : legacy_window db product_id k₀ k₁
          ≡ legacy_window db product_id k₀ (prev_key d s) ⊕ legacy_window db product_id k₁ k₁ =
        rw (← legacy_window-prev k₀ d s h) (
          legacy_window-split db product_id k₀ (k₁ - 1) k₁ (omega arith) (omega arith) ∙ rw back) in
      movement_between_periods-eq db product_id a t d s
      ∙ ap₂ ◌⊕◌ book legacy
      ∙ ⊕_exchange _ _ _ _
      ∙ ap (λ (x : Totals). x ⊕ period_totals d s)
          (sym (
            movement_between_periods-eq db product_id a t (prev_period_date d s)
              (prev_period_shift s)))

  -- A range that starts after it ends moves nothing.
  pub movement_between_periods-empty :
      (a : ℕ) (t : Shift) (d : ℕ) (s : Shift)
      → sort_key d s < sort_key a t
      → movement_between_periods db product_id a t d s ≡ no_movement
  movement_between_periods-empty a t d s h =
      movement_between_periods-eq db product_id a t d s
      ∙ ap₂ ◌⊕◌ (book_window-empty db product_id _ _ h) (legacy_window-empty db product_id _ _ h)
      ∙ no_movement-⊕ no_movement

exists_where_mono :
    (p q : Movement → Bool) (xs : List Movement)
    → ((m : Movement) → p m ≡ true → q m ≡ true)
    → exists_where p xs ≡ true
    → exists_where q xs ≡ true
exists_where_mono p q [] h e = e
exists_where_mono p q (x ∷ xs) h e = ground (arith, h x, exists_where_mono p q xs h)

-- What is at or before the period before is at or before the period.
is_at_or_before-prev :
    (product_id d : ℕ) (s : Shift) (m : Movement)
    → 0 < d
    → is_at_or_before product_id (prev_period_date d s) (prev_period_shift s) m ≡ true
    → is_at_or_before product_id d s m ≡ true
is_at_or_before-prev product_id d day m h₀ e = ground arith
is_at_or_before-prev product_id d night m h₀ e = ground arith

-- A product that has activity until the period before has activity until the period.
pub any_finalized_activity-prev :
    (db : Database) (product_id d : ℕ) (s : Shift)
    → 0 < d
    → any_finalized_activity_at_or_before db product_id (prev_period_date d s) (prev_period_shift s)
      ≡ true
    → any_finalized_activity_at_or_before db product_id d s ≡ true
unfolding any_finalized_activity_at_or_before
any_finalized_activity-prev db product_id d s h₀ e =
    let before = is_at_or_before product_id (prev_period_date d s) (prev_period_shift s) in
    let more : (xs : List Movement)
        → exists_where before xs ≡ true
        → exists_where (is_at_or_before product_id d s) xs ≡ true =
      λ xs. exists_where_mono _ _ xs (λ m. is_at_or_before-prev product_id d s m h₀) in
    let more_returns : exists_where (is_until product_id (prev_period_date d s)) (returned db)
          ≡ true
        → exists_where (is_until product_id d) (returned db) ≡ true =
      exists_where_mono _ _ (returned db) (λ m. until s m) in
    ground (arith, more (produced db), more (dispatched db), more (adjusted db), more_returns)
  where
    until :
        (s : Shift) (m : Movement)
        → is_until product_id (prev_period_date d s) m ≡ true
        → is_until product_id d m ≡ true
    until day m h = ground arith
    until night m h = ground arith
