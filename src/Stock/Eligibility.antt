-- ===== src/Stock/Eligibility.antt =====
-- returns_service.py: the filter of the queries beside the test of one return.
use daily_figures.Common.{ℕ, ◌+◌, ◌%◌, ◌<◌, ◌≡◌, inl, inr, ◌==◌, Bool-cases, arith}
use daily_figures.Records.{ReturnRecord, is_finalized}
use daily_figures.Stock.Database.{
  is_metro_sales_return, is_return_stock_posting_eligible, stock_posting_return_filter,
}

-- Python's Monday is day 0 and SQLite's is day 1.
is_monday : (weekday w : ℕ) → weekday < 7 → w ≡ (weekday + 1) % 7 → (w == 1) ≡ (weekday == 0)
is_monday weekday w lt e = ground arith

-- Where SQLite numbers the days of the week one later than Python does, the filter that the queries
-- run admits exactly the returns that the test of one return calls eligible.
pub stock_posting_return_filter-eq :
    (weekday strftime_w : ℕ → ℕ) (r : ReturnRecord)
    → ((date : ℕ) → weekday date < 7)
    → ((date : ℕ) → strftime_w date ≡ (weekday date + 1) % 7)
    → stock_posting_return_filter strftime_w r ≡ is_return_stock_posting_eligible weekday r
unfolding stock_posting_return_filter is_return_stock_posting_eligible
stock_posting_return_filter-eq weekday strftime_w r lt e =
    let monday = is_monday (weekday r.date) (strftime_w r.date) (lt r.date) (e r.date) in
    elim (Bool-cases (is_finalized r.status)) [
      | inr pending ↦ rw (pending, stock_posting_return_filter, is_return_stock_posting_eligible)
      | inl finalized ↦ elim (Bool-cases (is_metro_sales_return r)) [
        | inl metro ↦
            rw (finalized, stock_posting_return_filter, is_return_stock_posting_eligible)
              (rw metro monday)
        | inr other ↦
            rw (finalized, stock_posting_return_filter, is_return_stock_posting_eligible) (rw other)
      ]
    ]
