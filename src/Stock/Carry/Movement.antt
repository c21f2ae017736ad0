-- ===== src/Stock/Carry/Movement.antt =====
-- stock_service.py, `_movement_between_periods`: the sum by pieces (a night that starts the range,
-- the whole days in the middle, a day that ends it) beside the sum over the window, row by row.
use mathlib.Core.Path.{ap₂}
use daily_figures.Common.{
  ℕ, ◌≤◌, ◌<◌, suc, ◌≡◌, sym, ◌∙◌, ap, inl, inr, true, false, ◌&&◌, List, ℤ, ◌+ℤ◌, int_laws, ◌==◌,
  ==_iff, ltb, ltb→lt, leb, if◌then◌else◌, Bool-cases, sum_where-congr, sum_where-zero,
  sum_where-filter, arith,
}
use daily_figures.Records.{Shift, day, night, same_shift, sort_key, DailyFigure}
use daily_figures.Stock.Database.{Database, Movement}
use daily_figures.Stock.Queries.{
  dispatched, produced, returned, adjusted, is_at, is_in_dates, dispatch_issued_base_qty,
  adjustment_total_base_qty, returns_finalized_base_qty, production_finalized_base_qty,
  dispatch_issued_base_qty_range, adjustment_total_base_qty_range, returns_finalized_base_qty_range,
  production_finalized_base_qty_range,
}
use daily_figures.Stock.Anchor.{next_date, prev_date}
use daily_figures.Stock.Carry.{
  Totals, no_movement, is_figure_in_dates, is_figure_in_keys, legacy_sum,
  legacy_stored_movement_in_window, add_period, add_periods, add_dates, add_legacy, shifts_of,
  add_start, add_end, mid_to, across_dates, movement_between_periods,
}
use daily_figures.Stock.Window.{
  key_of, day_key_of, is_within, is_figure_within, ◌⊕◌, Totals_eq, ⊕_assoc, ⊕_comm, no_movement-⊕,
  book_window, legacy_window, book_window-split, book_window-next_date, book_window-empty,
  legacy_window-empty,
}

is_at-is_within :
    (product_id date : ℕ) (s : Shift) (m : Movement)
    → is_at product_id date s m ≡ is_within key_of product_id (sort_key date s) (sort_key date s) m
is_at-is_within product_id date s m = at_shift s m.shift
  where
    at_shift :
        (s s' : Shift)
        → (m.product_id == product_id && (m.date == date && same_shift s' s)) ≡ (
            m.product_id == product_id
            && (leb (sort_key date s) (sort_key m.date s')
                && leb (sort_key m.date s') (sort_key date s)))
    at_shift day day = ground arith
    at_shift day night = ground arith
    at_shift night day = ground arith
    at_shift night night = ground arith

is_in_dates-is_within :
    (product_id a b : ℕ) (m : Movement)
    → is_in_dates product_id a b m
      ≡ is_within key_of product_id (sort_key a day) (sort_key b night) m
is_in_dates-is_within product_id a b m = at_shift m.shift
  where
    at_shift :
        (s : Shift)
        → (m.product_id == product_id && (leb a m.date && leb m.date b)) ≡ (
            m.product_id == product_id
            && (leb (sort_key a day) (sort_key m.date s)
                && leb (sort_key m.date s) (sort_key b night)))
    at_shift day = ground arith
    at_shift night = ground arith

module _ (db : Database) (product_id : ℕ) where
  pub add_period-eq :
      (t : Totals) (date : ℕ) (s : Shift)
      → add_period db product_id t date s
        ≡ t ⊕ book_window db product_id (sort_key date s) (sort_key date s)
  unfolding add_period ◌⊕◌ book_window production_finalized_base_qty returns_finalized_base_qty
      dispatch_issued_base_qty adjustment_total_base_qty
  add_period-eq t date day =
      let same : (xs : List Movement) → _ ≡ _ =
        λ xs. sum_where-congr _ _ (λ m. m.base_qty) xs (is_at-is_within product_id date day) in
      Totals_eq _ _ (ap (◌+ℤ◌ t.production) (same (produced db)))
        (ap (◌+ℤ◌ t.returns)
          (sum_where-congr _ _ (λ m. m.base_qty) (returned db) (λ m. ground arith)))
        (ap (◌+ℤ◌ t.issued) (ap₂ ◌+ℤ◌ (same (dispatched db)) (same (adjusted db))))
  add_period-eq t date night =
      let same : (xs : List Movement) → _ ≡ _ =
        λ xs. sum_where-congr _ _ (λ m. m.base_qty) xs (is_at-is_within product_id date night) in
      Totals_eq _ _ (ap (◌+ℤ◌ t.production) (same (produced db)))
        (rw
          (sum_where-zero
            (is_within day_key_of product_id (sort_key date night) (sort_key date night))
            (λ m. m.base_qty) (returned db) (λ m. ground arith))
          (omega int_laws))
        (ap (◌+ℤ◌ t.issued) (ap₂ ◌+ℤ◌ (same (dispatched db)) (same (adjusted db))))

  add_dates-eq :
      (t : Totals) (a b : ℕ)
      → add_dates db product_id t a b
        ≡ t ⊕ book_window db product_id (sort_key a day) (sort_key b night)
  unfolding add_dates ◌⊕◌ book_window production_finalized_base_qty_range
      returns_finalized_base_qty_range dispatch_issued_base_qty_range
      adjustment_total_base_qty_range
  add_dates-eq t a b =
      let same : (xs : List Movement) → _ ≡ _ =
        λ xs. sum_where-congr _ _ (λ m. m.base_qty) xs (is_in_dates-is_within product_id a b) in
      Totals_eq _ _ (ap (◌+ℤ◌ t.production) (same (produced db)))
        (ap (◌+ℤ◌ t.returns)
          (sum_where-congr _ _ (λ m. m.base_qty) (returned db) (λ m. ground arith)))
        (ap (◌+ℤ◌ t.issued) (ap₂ ◌+ℤ◌ (same (dispatched db)) (same (adjusted db))))

is_figure-is_within :
    (product_id a b : ℕ) (s t : Shift) (f : DailyFigure)
    → (is_figure_in_dates product_id a b f && is_figure_in_keys (sort_key a s) (sort_key b t) f)
      ≡ is_figure_within product_id (sort_key a s) (sort_key b t) f
is_figure-is_within product_id a b s t f = at_shift s t f.shift
  where
    at_shift :
        (s t u : Shift)
        → ((f.product_id == product_id && (leb a f.date && leb f.date b))
            && (leb (sort_key a s) (sort_key f.date u) && leb (sort_key f.date u) (sort_key b t)))
          ≡ (f.product_id == product_id
              && (leb (sort_key a s) (sort_key f.date u) && leb (sort_key f.date u) (sort_key b t)))
    at_shift day day day = ground arith
    at_shift day day night = ground arith
    at_shift day night day = ground arith
    at_shift day night night = ground arith
    at_shift night day day = ground arith
    at_shift night day night = ground arith
    at_shift night night day = ground arith
    at_shift night night night = ground arith

module _ (db : Database) (product_id : ℕ) where
  add_legacy-eq :
      (x : Totals) (a : ℕ) (s : Shift) (b : ℕ) (t : Shift)
      → sort_key a s ≤ sort_key b t
      → add_legacy x (legacy_stored_movement_in_window db product_id a s b t)
        ≡ x ⊕ legacy_window db product_id (sort_key a s) (sort_key b t)
  unfolding add_legacy legacy_stored_movement_in_window ◌⊕◌ legacy_window legacy_sum
  add_legacy-eq x a s b t h =
      let same : (q : DailyFigure → ℤ) → _ ≡ _ = λ q.
        sum_where-filter (is_figure_in_dates product_id a b)
          (is_figure_in_keys (sort_key a s) (sort_key b t)) q db.figures
        ∙ sum_where-congr _ _ q db.figures (is_figure-is_within product_id a b s t) in
      let in_order : ltb (sort_key b t) (sort_key a s) ≡ false = ground arith in
      rw in_order (
        Totals_eq _ _ (ap (◌+ℤ◌ x.production) (same (λ f. f.production_base_qty)))
          (ap (◌+ℤ◌ x.returns) (same (λ f. f.return_base_qty))) (omega int_laws))

  day_and_night :
      (d : ℕ)
      → book_window db product_id (sort_key d day) (sort_key d night)
        ≡ book_window db product_id (sort_key d day) (sort_key d day)
          ⊕ book_window db product_id (sort_key d night) (sort_key d night)
  day_and_night d =
      let next : suc (sort_key d day) ≡ sort_key d night = omega arith in
      book_window-split db product_id (sort_key d day) (sort_key d day) (sort_key d night)
        (omega arith) (omega arith)
      ∙ rw next

  dates_and_day :
      (a b : ℕ)
      → a ≤ prev_date b
      → 0 < b
      → book_window db product_id (sort_key a day) (sort_key b day)
        ≡ book_window db product_id (sort_key a day) (sort_key (prev_date b) night)
          ⊕ book_window db product_id (sort_key b day) (sort_key b day)
  dates_and_day a b h k =
      let back : next_date (prev_date b) ≡ b = omega arith in
      book_window-split db product_id (sort_key a day) (sort_key (prev_date b) night)
        (sort_key b day) (omega arith) (omega arith)
      ∙ ap (◌⊕◌ _) (book_window-next_date db product_id (prev_date b) (sort_key b day) ∙ rw back)

  -- Both periods of one date, or one of them.
  add_periods-eq :
      (d : ℕ) (s t : Shift)
      → sort_key d s ≤ sort_key d t
      → add_periods db product_id no_movement d (shifts_of s t)
        ≡ book_window db product_id (sort_key d s) (sort_key d t)
  unfolding add_periods
  add_periods-eq d day day h = add_period-eq db product_id no_movement d day ∙ no_movement-⊕ _
  add_periods-eq d night night h = add_period-eq db product_id no_movement d night ∙ no_movement-⊕ _
  add_periods-eq d night day h = absurd (omega arith)
  add_periods-eq d day night h = rw (add_period-eq db product_id no_movement d day) (
      rw (no_movement-⊕ (book_window db product_id (sort_key d day) (sort_key d day))) (
        add_period-eq db product_id (book_window db product_id (sort_key d day) (sort_key d day)) d
          night
        ∙ sym (day_and_night d)))

  -- The days in the middle, with the day at the end where there is one.
  add_end-eq :
      (x : Totals) (a b : ℕ) (t : Shift)
      → a ≤ b
      → 0 < b
      → (if leb a (mid_to b t)
          then add_dates db product_id (add_end db product_id x b t) a (mid_to b t)
          else add_end db product_id x b t)
        ≡ x ⊕ book_window db product_id (sort_key a day) (sort_key b t)
  unfolding add_end
  add_end-eq x a b night h k =
      let in_order : leb a b ≡ true = ground arith in rw in_order (add_dates-eq db product_id x a b)
  add_end-eq x a b day h k = elim (Bool-cases (leb a (prev_date b))) [
    | inl middle ↦ rw middle (
        rw (add_dates-eq db product_id (add_period db product_id x b day) a (prev_date b)) (
          rw (add_period-eq db product_id x b day)
            (⊕_assoc x _ _ ∙ ap (◌⊕◌ x) (⊕_comm _ _ ∙ sym (dates_and_day a b (ground arith) k)))))
    | inr none_between ↦
        let same : a ≡ b = ground arith in
        rw none_between (rw same (add_period-eq db product_id x b day))
  ]

  across_dates-eq :
      (a : ℕ) (s : Shift) (b : ℕ) (t : Shift)
      → a < b
      → across_dates db product_id a s b t ≡ book_window db product_id (sort_key a s) (sort_key b t)
  unfolding across_dates add_start
  across_dates-eq a day b t h =
      add_end-eq no_movement a b t (omega arith) (omega arith) ∙ no_movement-⊕ _
  across_dates-eq a night b t h =
      add_end-eq (add_period db product_id no_movement a night) (next_date a) b t (omega arith)
        (omega arith)
      ∙ rw (add_period-eq db product_id no_movement a night) (
          rw (no_movement-⊕ (book_window db product_id (sort_key a night) (sort_key a night)))
            (sym (night_and_dates t)))
    where
      night_and_dates :
          (t : Shift)
          → book_window db product_id (sort_key a night) (sort_key b t)
            ≡ book_window db product_id (sort_key a night) (sort_key a night)
              ⊕ book_window db product_id (sort_key (next_date a) day) (sort_key b t)
      night_and_dates t =
          book_window-split db product_id (sort_key a night) (sort_key a night) (sort_key b t)
            (omega arith) (omega arith)
          ∙ ap (◌⊕◌ _) (book_window-next_date db product_id a (sort_key b t))

  -- What moved between two periods is, whatever the two periods are, what the books and the stored
  -- legacy columns hold in the window of their keys.
  pub movement_between_periods-eq :
      (a : ℕ) (s : Shift) (b : ℕ) (t : Shift)
      → movement_between_periods db product_id a s b t
        ≡ book_window db product_id (sort_key a s) (sort_key b t)
          ⊕ legacy_window db product_id (sort_key a s) (sort_key b t)
  unfolding movement_between_periods
  movement_between_periods-eq a s b t = elim (Bool-cases (ltb (sort_key b t) (sort_key a s))) [
    | inl backwards ↦
        let late : sort_key b t < sort_key a s = ltb→lt _ _ backwards in
        rw backwards (
          rw (book_window-empty db product_id _ _ late)
            (rw (legacy_window-empty db product_id _ _ late) (sym (no_movement-⊕ no_movement))))
    | inr in_order ↦
        let early : sort_key a s ≤ sort_key b t = ground arith in
        elim (Bool-cases (a == b)) [
          | inl one_date ↦
              let same : a ≡ b = (==_iff a b).0 one_date in
              let early' : sort_key a s ≤ sort_key a t = rw (← same) at early in
              rw (in_order, one_date)
                (rw (← same) (rw (add_periods-eq a s t early') (add_legacy-eq _ a s a t early')))
          | inr two_dates ↦
              let before : a < b = later s t early two_dates in
              rw (in_order, two_dates)
                (rw (across_dates-eq a s b t before) (add_legacy-eq _ a s b t early))
        ]
  ]
    where
      later : (s t : Shift) → sort_key a s ≤ sort_key b t → (a == b) ≡ false → a < b
      later day day h e = ground arith
      later day night h e = ground arith
      later night day h e = ground arith
      later night night h e = ground arith
