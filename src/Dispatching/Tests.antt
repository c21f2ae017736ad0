-- ===== src/Dispatching/Tests.antt =====
-- Tests of dispatch_service.py: two dispatches of one number, and a draft whose line is replaced.
use daily_figures.Common.{
  ℕ, ◌≡◌, refl, sym, ◌∙◌, ap, inl, inr, Bool-cases, ==_iff, Option, Result, none, some, List, [],
  ◌∷◌, String, pos, ◌+ℤ◌, ◌==◌, true, false, if◌then◌else◌, ok, raise,
}
use daily_figures.Packaging.{normalize, normalize_counts, roll_up, to_base_units, count_base_units}
use daily_figures.Records.{draft, current_packaging_rule, Shift, Line, User, super_admin}
use daily_figures.Stock.Database.{line_movements}
use daily_figures.Stock.Queries.{total, is_at, dispatch_issued_base_qty}
use daily_figures.Stock.Tests.{juice, chief, books}
use daily_figures.Production.{LineInput}
use daily_figures.Dispatching.{
  DispatchError, Category, Customer, DispatchRow, Book, duplicate_number, find_duplicate_number,
  finalize_dispatch, reopen_dispatch, void_dispatch,
}
use daily_figures.Dispatching.Lines.{build_line, build_lines, with_lines, replace_lines}
use daily_figures.Dispatching.Recipient.{create_temporary_customer, Choice, resolve_recipient}
use daily_figures.Dispatching.Making.{new_dispatch, create_dispatch, duplicate_dispatch}
use daily_figures.Dispatching.Homed.{IsKeyed, create_dispatch_homed}
use daily_figures.Dispatching.Number.{IsNumbered}
use daily_figures.Dispatching.Cycle.{
  Event, create, copy, finalize, revoke, handle, handle_all, handle_all-IsNumbered,
}
use daily_figures.Dispatching.Posting.{with_dispatch, replace_lines-finalize_dispatch}

abbrev as_given : String → String
as_given text = text

abbrev no_digits : ℕ → String
no_digits n = "1"

abbrev shops : Category
shops = record { id = 1; name = "Shops" }

abbrev corner : Customer
corner = record {
  id = 5;
  name = "Corner shop";
  sales_category_id = some 1;
  is_temporary = false;
  created_by = none;
}

abbrev empty_book : Book
empty_book = record {
  row_at = λ _. none;
  next_id = 1;
  customer_at = λ id. if id == 5 then some corner else none;
  next_customer_id = 6;
  category_at = λ id. if id == 1 then some shops else none;
  products = juice ∷ [];
}

abbrev entered : LineInput
entered = record { product_id = 7; cartons = pos 1; packs = pos 11; pieces = pos 25 }

abbrev to_corner : Choice
to_corner = record { customer_id = some 5; new_customer_name = none; sales_category_id = none }

abbrev admin : User
admin = record { id = 1; username = "admin"; role = super_admin }

abbrev first_made : Event
first_made = create 10 "D-1" 101 to_corner none none (entered ∷ []) chief false none

abbrev events : List Event
events =
    first_made
    ∷ finalize 11 1 chief
    ∷ create 12 "D-1" 101 to_corner none none (entered ∷ []) chief true (some "split load")
    ∷ create 13 "D-1" 101 to_corner none none (entered ∷ []) admin true (some "split load")
    ∷ revoke 14 2 chief (some "wrong shop")
    ∷ copy 15 101 1 "D-2" chief none
    ∷ []

-- A manager cannot override a number that is in use.
manager_refused :
    handle as_given no_digits first_made
      (handle_all as_given no_digits (first_made ∷ []) empty_book)
    ≡ raise duplicate_number
unfolding handle handle_all create_dispatch resolve_recipient find_duplicate_number build_lines
    build_line normalize normalize_counts roll_up to_base_units count_base_units
    current_packaging_rule
manager_refused = refl

-- Of the three that are tried with one number two are made, and the copy.
three_made : (handle_all as_given no_digits events empty_book).next_id ≡ 4
unfolding handle handle_all create_dispatch resolve_recipient find_duplicate_number build_lines
    build_line normalize normalize_counts roll_up to_base_units count_base_units finalize_dispatch
    void_dispatch duplicate_dispatch current_packaging_rule
three_made = refl

empty_book-IsNumbered : IsNumbered empty_book
empty_book-IsNumbered = record {
  below = λ id a e. absurd (cc);
  overridden = λ i j a b order e. absurd (cc);
}

handle_all-IsNumbered_example : IsNumbered (handle_all as_given no_digits events empty_book)
handle_all-IsNumbered_example =
    handle_all-IsNumbered as_given no_digits events empty_book empty_book-IsNumbered

abbrev built : Line
built = record {
  product_id = 7;
  quantity = record { cartons = 2; packs = 1; pieces = 5 };
  base_unit_qty = pos 255;
  packaging_rule_id = 1;
}

abbrev drafted : DispatchRow
drafted = new_dispatch 2 101 "D-2" corner shops none none false none [] chief

drafted_replaced :
    replace_lines (juice ∷ []) 11 drafted (entered ∷ []) chief
    ≡ ok (with_lines chief (built ∷ []) drafted)
unfolding replace_lines build_lines build_line normalize normalize_counts roll_up to_base_units
    count_base_units current_packaging_rule
drafted_replaced = refl

replace_lines-finalize_dispatch_example :
    (lines : List Line) × (posted : DispatchRow) × (reopened : DispatchRow) × (voided : DispatchRow)
    × (build_lines (juice ∷ []) 11 (entered ∷ []) ≡ ok lines)
    × (finalize_dispatch 11 (with_lines chief (built ∷ []) drafted) chief ≡ ok posted)
    × (reopen_dispatch posted chief (some "miscount") ≡ ok reopened)
    × (void_dispatch 12 posted chief (some "miscount") ≡ ok voided)
    × (posted.entry.lines ≡ lines)
    × (reopened.entry.lines ≡ lines)
    × (voided.entry.lines ≡ lines)
    × ((product_id date : ℕ) (shift : Shift)
        → (dispatch_issued_base_qty (with_dispatch posted books) product_id date shift
            ≡ total
                (is_at product_id date shift)
                (line_movements drafted.entry.date drafted.entry.shift lines)
              +ℤ dispatch_issued_base_qty (with_dispatch drafted books) product_id date shift)
          × (dispatch_issued_base_qty (with_dispatch reopened books) product_id date shift
              ≡ dispatch_issued_base_qty (with_dispatch drafted books) product_id date shift)
          × (dispatch_issued_base_qty (with_dispatch voided books) product_id date shift
              ≡ dispatch_issued_base_qty (with_dispatch drafted books) product_id date shift))
replace_lines-finalize_dispatch_example =
    replace_lines-finalize_dispatch books (juice ∷ []) 11 12 drafted
      (with_lines chief (built ∷ []) drafted) (entered ∷ []) chief (some "miscount")
      drafted_replaced refl

empty_book-IsKeyed : IsKeyed empty_book
empty_book-IsKeyed = record {
  customer_id = λ id c at. elim (Bool-cases (id == 5)) [
    | inl own ↦
        ap (λ (x : Customer). x.id) (sym (ap (customer_or c) (rw own at at)))
        ∙ sym ((==_iff id 5).0 own)
    | inr other ↦ cc (rw other at at)
  ];
  category_id = λ id c at. elim (Bool-cases (id == 1)) [
    | inl own ↦
        ap (λ (x : Category). x.id) (sym (ap (category_or c) (rw own at at)))
        ∙ sym ((==_iff id 1).0 own)
    | inr other ↦ cc (rw other at at)
  ];
}
  where
    customer_or : Customer → Option Customer → Customer
    customer_or d none = d
    customer_or d (some c) = c

    category_or : Category → Option Category → Category
    category_or d none = d
    category_or d (some c) = c

abbrev newcomer : Choice
newcomer = record {
  customer_id = none;
  new_customer_name = some "Truck 7";
  sales_category_id = some 1;
}

abbrev book_or : Result DispatchError Book → Book
book_or (ok db) = db
book_or (raise e) = empty_book

-- A new recipient is made with the dispatch, under the id 6.
abbrev with_newcomer : Book
with_newcomer = book_or (
    create_dispatch as_given 10 "D-1" 101 newcomer none none (entered ∷ []) chief false none
      empty_book)

newcomer_made :
    create_dispatch as_given 10 "D-1" 101 newcomer none none
      (entered ∷ [])
      chief
      false
      none
      empty_book
    ≡ ok with_newcomer
unfolding create_dispatch resolve_recipient find_duplicate_number build_lines build_line normalize
    normalize_counts roll_up to_base_units count_base_units current_packaging_rule
    create_temporary_customer
newcomer_made = refl

create_dispatch_homed_example :
    (id : ℕ) × (row : DispatchRow) × (customer : Customer) × (category_id : ℕ)
    × (with_newcomer.row_at id ≡ some row)
    × (row.dispatch_number ≡ "D-1")
    × (row.entry.status ≡ draft)
    × (row.sales_category_id ≡ some category_id)
    × (with_newcomer.customer_at row.customer_id ≡ some customer)
    × (customer.sales_category_id ≡ some category_id)
create_dispatch_homed_example =
    create_dispatch_homed as_given 10 "D-1" 101 newcomer none none (entered ∷ []) chief false none
      empty_book with_newcomer empty_book-IsKeyed newcomer_made
