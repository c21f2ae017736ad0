-- ===== src/Stock/Window.antt =====
-- An independent description of stock_service.py's range sums: what all the books and the stored
-- legacy columns hold between two period keys, row by row.
use mathlib.Core.Path.{ap₂}
use daily_figures.Common.{
  ℕ, ◌+◌, ◌≤◌, ◌<◌, suc, ◌≡◌, refl, Bool, ◌&&◌, List, ℤ, pos, ◌+ℤ◌, int_laws, ◌==◌, leb, count_of,
  sum_where, sum_where-split, sum_where-congr, sum_where-zero, arith,
}
use daily_figures.Records.{Shift, day, night, sort_key, DailyFigure}
use daily_figures.Stock.Database.{Database, Movement}
use daily_figures.Stock.Queries.{dispatched, produced, returned, adjusted, total}
use daily_figures.Stock.Anchor.{figure_key, next_date}
use daily_figures.Stock.Carry.{Totals, no_movement}

-- The key of a row's period; a return counts in the day of its date.
abbrev pub key_of : Movement → ℕ
key_of m = sort_key m.date m.shift

abbrev pub day_key_of : Movement → ℕ
day_key_of m = sort_key m.date day

abbrev pub is_within : (Movement → ℕ) → (product_id from to : ℕ) → Movement → Bool
is_within key product_id from to m =
    m.product_id == product_id && (leb from (key m) && leb (key m) to)

abbrev pub is_figure_within : (product_id from to : ℕ) → DailyFigure → Bool
is_figure_within product_id from to f =
    f.product_id == product_id && (leb from (figure_key f) && leb (figure_key f) to)

infixl 65 ◌⊕◌
unfoldable pub ◌⊕◌ : Totals → Totals → Totals
a ⊕ b = record {
  production = a.production +ℤ b.production;
  returns = a.returns +ℤ b.returns;
  issued = a.issued +ℤ b.issued;
}

pub Totals_eq :
    (a b : Totals)
    → a.production ≡ b.production
    → a.returns ≡ b.returns
    → a.issued ≡ b.issued
    → a ≡ b
Totals_eq a b p r s = λ i. record { production = p i; returns = r i; issued = s i }

pub ⊕_assoc : (a b c : Totals) → a ⊕ b ⊕ c ≡ a ⊕ (b ⊕ c)
unfolding ◌⊕◌
⊕_assoc a b c = Totals_eq _ _ (omega int_laws) (omega int_laws) (omega int_laws)

pub ⊕_comm : (a b : Totals) → a ⊕ b ≡ b ⊕ a
unfolding ◌⊕◌
⊕_comm a b = Totals_eq _ _ (omega int_laws) (omega int_laws) (omega int_laws)

pub ⊕_exchange : (a b c d : Totals) → (a ⊕ b) ⊕ (c ⊕ d) ≡ (a ⊕ c) ⊕ (b ⊕ d)
unfolding ◌⊕◌
⊕_exchange a b c d = Totals_eq _ _ (omega int_laws) (omega int_laws) (omega int_laws)

pub no_movement-⊕ : (a : Totals) → no_movement ⊕ a ≡ a
unfolding ◌⊕◌
no_movement-⊕ a = Totals_eq _ _ (omega int_laws) (omega int_laws) (omega int_laws)

module _ (db : Database) (product_id : ℕ) where
  -- What the books hold between two keys, both included.
  unfoldable pub book_window : (from to : ℕ) → Totals
  book_window from to = record {
    production = total (is_within key_of product_id from to) (produced db);
    returns = total (is_within day_key_of product_id from to) (returned db);
    issued =
        total (is_within key_of product_id from to) (dispatched db)
        +ℤ total (is_within key_of product_id from to) (adjusted db);
  }

  -- What the rows of daily_figures hold from before the books.
  unfoldable pub legacy_window : (from to : ℕ) → Totals
  legacy_window from to = record {
    production =
        sum_where (is_figure_within product_id from to) (λ f. f.production_base_qty) db.figures;
    returns = sum_where (is_figure_within product_id from to) (λ f. f.return_base_qty) db.figures;
    issued = pos 0;
  }

-- A window splits at any key inside it.
is_within-split :
    (key : Movement → ℕ) (product_id from mid to : ℕ)
    → from ≤ suc mid
    → mid ≤ to
    → (m : Movement)
    → count_of (is_within key product_id from to m)
      ≡ count_of (is_within key product_id from mid m)
        + count_of (is_within key product_id (suc mid) to m)
is_within-split key product_id from mid to h k m = ground arith

is_figure_within-split :
    (product_id from mid to : ℕ)
    → from ≤ suc mid
    → mid ≤ to
    → (f : DailyFigure)
    → count_of (is_figure_within product_id from to f)
      ≡ count_of (is_figure_within product_id from mid f)
        + count_of (is_figure_within product_id (suc mid) to f)
is_figure_within-split product_id from mid to h k f = ground arith

module _ (db : Database) (product_id : ℕ) where
  pub book_window-split :
      (from mid to : ℕ)
      → from ≤ suc mid
      → mid ≤ to
      → book_window db product_id from to
        ≡ book_window db product_id from mid ⊕ book_window db product_id (suc mid) to
  unfolding book_window ◌⊕◌
  book_window-split from mid to h k =
      let split : (key : Movement → ℕ) (xs : List Movement)
          → total (is_within key product_id from to) xs
            ≡ total (is_within key product_id from mid) xs
              +ℤ total (is_within key product_id (suc mid) to) xs =
        λ key xs.
          sum_where-split _ _ _ (λ m. m.base_qty) xs
            (is_within-split key product_id from mid to h k) in
      Totals_eq _ _ (split key_of (produced db)) (split day_key_of (returned db))
        (rw (split key_of (dispatched db)) (rw (split key_of (adjusted db)) (omega int_laws)))

  pub legacy_window-split :
      (from mid to : ℕ)
      → from ≤ suc mid
      → mid ≤ to
      → legacy_window db product_id from to
        ≡ legacy_window db product_id from mid ⊕ legacy_window db product_id (suc mid) to
  unfolding legacy_window ◌⊕◌
  legacy_window-split from mid to h k =
      let split : (qty : DailyFigure → ℤ)
          → sum_where (is_figure_within product_id from to) qty db.figures
            ≡ sum_where (is_figure_within product_id from mid) qty db.figures
              +ℤ sum_where (is_figure_within product_id (suc mid) to) qty db.figures =
        λ qty.
          sum_where-split _ _ _ qty db.figures
            (is_figure_within-split product_id from mid to h k) in
      Totals_eq _ _ (split (λ f. f.production_base_qty)) (split (λ f. f.return_base_qty))
        (omega int_laws)

-- No key lies between a night and the next day.
is_within-next_date :
    (date to product_id : ℕ) (m : Movement)
    → (is_within key_of product_id (suc (sort_key date night)) to m
        ≡ is_within key_of product_id (sort_key (next_date date) day) to m)
      × (is_within day_key_of product_id (suc (sort_key date night)) to m
          ≡ is_within day_key_of product_id (sort_key (next_date date) day) to m)
is_within-next_date date to product_id m = (at_shift m.shift, ground arith)
  where
    at_shift :
        (s : Shift)
        → (m.product_id == product_id
            && (leb (suc (sort_key date night)) (sort_key m.date s) && leb (sort_key m.date s) to))
          ≡ (m.product_id == product_id
              && (leb (sort_key (next_date date) day) (sort_key m.date s)
                  && leb (sort_key m.date s) to))
    at_shift day = ground arith
    at_shift night = ground arith

is_figure_within-next_date :
    (date to product_id : ℕ) (f : DailyFigure)
    → is_figure_within product_id (suc (sort_key date night)) to f
      ≡ is_figure_within product_id (sort_key (next_date date) day) to f
is_figure_within-next_date date to product_id f = at_shift f.shift
  where
    at_shift :
        (s : Shift)
        → (f.product_id == product_id
            && (leb (suc (sort_key date night)) (sort_key f.date s) && leb (sort_key f.date s) to))
          ≡ (f.product_id == product_id
              && (leb (sort_key (next_date date) day) (sort_key f.date s)
                  && leb (sort_key f.date s) to))
    at_shift day = ground arith
    at_shift night = ground arith

module _ (db : Database) (product_id : ℕ) where
  pub book_window-next_date :
      (date to : ℕ)
      → book_window db product_id (suc (sort_key date night)) to
        ≡ book_window db product_id (sort_key (next_date date) day) to
  unfolding book_window
  book_window-next_date date to =
      let same : (xs : List Movement) → _ ≡ _ = λ xs.
        sum_where-congr _ _ (λ m. m.base_qty) xs
          (λ m. (is_within-next_date date to product_id m).0) in
      Totals_eq _ _ (same (produced db))
        (sum_where-congr _ _ (λ m. m.base_qty) (returned db)
          (λ m. (is_within-next_date date to product_id m).1))
        (ap₂ ◌+ℤ◌ (same (dispatched db)) (same (adjusted db)))

  pub legacy_window-next_date :
      (date to : ℕ)
      → legacy_window db product_id (suc (sort_key date night)) to
        ≡ legacy_window db product_id (sort_key (next_date date) day) to
  unfolding legacy_window
  legacy_window-next_date date to =
      let same : (q : DailyFigure → ℤ) → _ ≡ _ =
        λ q. sum_where-congr _ _ q db.figures (is_figure_within-next_date date to product_id) in
      Totals_eq _ _ (same (λ f. f.production_base_qty)) (same (λ f. f.return_base_qty)) refl

  -- A window that ends before it starts holds nothing.
  pub book_window-empty :
      (from to : ℕ) → to < from → book_window db product_id from to ≡ no_movement
  unfolding book_window
  book_window-empty from to h =
      let nothing : (key : Movement → ℕ) (xs : List Movement)
          → total (is_within key product_id from to) xs ≡ pos 0 =
        λ key xs. sum_where-zero _ (λ m. m.base_qty) xs (λ m. ground arith) in
      Totals_eq _ _ (nothing key_of (produced db)) (nothing day_key_of (returned db))
        (rw (nothing key_of (dispatched db)) (rw (nothing key_of (adjusted db)) (omega int_laws)))

  pub legacy_window-empty :
      (from to : ℕ) → to < from → legacy_window db product_id from to ≡ no_movement
  unfolding legacy_window
  legacy_window-empty from to h =
      let nothing : (q : DailyFigure → ℤ)
          → sum_where (is_figure_within product_id from to) q db.figures ≡ pos 0 =
        λ q. sum_where-zero _ q db.figures (λ f. ground arith) in
      Totals_eq _ _ (nothing (λ f. f.production_base_qty)) (nothing (λ f. f.return_base_qty)) refl
