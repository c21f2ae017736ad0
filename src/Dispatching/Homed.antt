-- ===== src/Dispatching/Homed.antt =====
-- dispatch_service.py, `create_dispatch`: the recipient and the category of a new dispatch.
use text.Mathlib.Text.{◌==◌ as str_eq}
use daily_figures.Common.{
  ℕ, ◌≡◌, refl, sym, ◌∙◌, ap, inl, inr, Bool, false, not, Option, none, some, List, String, ==_iff,
  Bool-cases, Option-cases, Result, ok, raise, bind_ok, raise_if_ok, ◌>>=◌, ◌>>◌, raise_if, arith,
}
use daily_figures.Records.{draft, User}
use daily_figures.Production.{LineInput}
use daily_figures.Dispatching.{
  DispatchError, name_required, recipient_required, other_category, no_lines, DispatchRow, Book,
  Category, Customer, find_duplicate_number, is_blank, is_empty, text_of,
}
use daily_figures.Dispatching.Lines.{build_lines}
use daily_figures.Dispatching.Recipient.{
  Choice, Resolved, lookup_category, create_temporary_customer, new_recipient, is_missing,
  customer_of, is_of_other, or_own, own_category, same_id, resolve_recipient, require_category,
}
use daily_figures.Dispatching.Making.{check_number, create_dispatch, new_dispatch}

-- The rows of the customers and of the categories stand under their own ids.
pub record IsKeyed (db : Book) : Type 0 where
  pub customer_id : (id : ℕ) (c : Customer) → db.customer_at id ≡ some c → c.id ≡ id
  pub category_id : (id : ℕ) (c : Category) → db.category_at id ≡ some c → c.id ≡ id

-- The recipient is in the tables, under the category if there is one.
record IsHomed (r : Resolved) : Type 0 where
  stored : r.book.customer_at r.customer.id ≡ some r.customer
  homed : (c : Category) → r.category ≡ some c → r.customer.sales_category_id ≡ some c.id

abbrev resolved_or : Resolved → Result DispatchError Resolved → Resolved
resolved_or d (ok r) = r
resolved_or d (raise e) = d

create_temporary_customer-IsHomed :
    (strip : String → String) (name : Option String) (category : Category) (user : User) (db : Book)
    (r : Resolved)
    → create_temporary_customer strip name category user db ≡ ok r
    → IsHomed r
unfolding create_temporary_customer
create_temporary_customer-IsHomed strip name category user db r e =
    let (_, e1) = raise_if_ok (str_eq (strip (text_of name)) "") name_required _ e in
    rw (← ap (resolved_or r) e1) record {
      stored = rw ((==_iff db.next_customer_id db.next_customer_id).1 refl) refl;
      homed = λ c same. ap (id_of category.id) same;
    }
  where
    id_of : ℕ → Option Category → Option ℕ
    id_of d none = some d
    id_of d (some c) = some c.id

customer_of-stored :
    (id : Option ℕ) (db : Book) (customer : Customer)
    → IsKeyed db
    → customer_of id db ≡ ok customer
    → db.customer_at customer.id ≡ some customer
customer_of-stored none db customer keyed e = absurd (cc)
customer_of-stored (some id) db customer keyed e = elim (Option-cases (db.customer_at id)) [
  | inl missing ↦ cc (rw (missing, customer_of) at e)
  | inr (c, at) ↦
      let same : c ≡ customer = ap (customer_or c) (rw (at, customer_of) at e) in
      ap db.customer_at (ap (λ (x : Customer). x.id) (sym same) ∙ keyed.customer_id id c at)
      ∙ at
      ∙ ap some same
]
  where
    customer_or : Customer → Result DispatchError Customer → Customer
    customer_or d (ok c) = c
    customer_or d (raise err) = d

-- A category that is accepted with a known recipient is the recipient's own.
or_own-homed :
    (category : Option Category) (customer : Customer) (db : Book) (c : Category)
    → IsKeyed db
    → is_of_other category customer ≡ false
    → or_own category customer db ≡ some c
    → customer.sales_category_id ≡ some c.id
or_own-homed none customer db c keyed e h = owned customer.sales_category_id h
  where
    owned : (o : Option ℕ) → own_category o db ≡ some c → o ≡ some c.id
    owned none at = absurd (cc)
    owned (some id) at = ap some (sym (keyed.category_id id c at))
or_own-homed (some own) customer db c keyed e h =
    same customer.sales_category_id e ∙ ap (λ (x : Category). some x.id) (ap (category_or c) h)
  where
    category_or : Category → Option Category → Category
    category_or d none = d
    category_or d (some x) = x

    same : (o : Option ℕ) → not (same_id o own.id) ≡ false → o ≡ some own.id
    same none at = absurd (cc)
    same (some id) at = ap some (ground (arith, ==_iff id own.id))

resolve_recipient-IsHomed :
    (strip : String → String) (choice : Choice) (user : User) (db : Book) (r : Resolved)
    → IsKeyed db
    → resolve_recipient strip choice user db ≡ ok r
    → IsHomed r
unfolding resolve_recipient
resolve_recipient-IsHomed strip choice user db r keyed e =
    let (category, _, e1) = bind_ok (lookup_category choice.sales_category_id db) _ e in
    elim (Bool-cases (is_blank choice.new_customer_name)) [
      | inr named ↦ new_one category (rw named at e1)
      | inl unnamed ↦ known category (rw unnamed at e1)
    ]
  where
    new_one :
        (category : Option Category)
        → new_recipient strip choice.new_customer_name category user db ≡ ok r
        → IsHomed r
    new_one none h = absurd (cc)
    new_one (some category) h =
        create_temporary_customer-IsHomed strip choice.new_customer_name category user db r h

    known :
        (category : Option Category)
        → (raise_if (is_missing choice.customer_id) recipient_required
            >> customer_of choice.customer_id db
            >>= λ customer.
                raise_if (is_of_other category customer) other_category
                >> ok (record {
                  book = db;
                  customer = customer;
                  category = or_own category customer db;
                }))
          ≡ ok r
        → IsHomed r
    known category h =
        let (customer, h0, h1) =
          bind_ok
            (raise_if (is_missing choice.customer_id) recipient_required
              >> customer_of choice.customer_id db)
            _ h in
        let (_, h0') = raise_if_ok (is_missing choice.customer_id) recipient_required _ h0 in
        let (own, h2) = raise_if_ok (is_of_other category customer) other_category _ h1 in
        rw (← ap (resolved_or r) h2) record {
          stored = customer_of-stored choice.customer_id db customer keyed h0';
          homed = λ c at. or_own-homed category customer db c keyed own at;
        }

require_category-some :
    (o : Option Category) (c : Category) → require_category o ≡ ok c → o ≡ some c
require_category-some none c e = absurd (cc)
require_category-some (some x) c e = ap some (ap category_or e)
  where
    category_or : Result DispatchError Category → Category
    category_or (ok y) = y
    category_or (raise err) = x

abbrev book_or : Book → Result DispatchError Book → Book
book_or d (ok db) = db
book_or d (raise e) = d

-- Where customers and categories stand under their ids, a dispatch that is made is in the book, as a
-- draft with its number, and its recipient is a stored customer of the category it is saved under.
pub create_dispatch_homed :
    (strip : String → String) (now : ℕ) (number : String) (date : ℕ) (choice : Choice)
    (invoice notes : Option String) (lines : List LineInput) (user : User) (override : Bool)
    (reason : Option String) (db db' : Book)
    → IsKeyed db
    → create_dispatch strip now number date choice invoice notes lines user override reason db
      ≡ ok db'
    → (id : ℕ) × (row : DispatchRow) × (customer : Customer) × (category_id : ℕ) × (db'.row_at id
        ≡ some row)
      × (row.dispatch_number ≡ number)
      × (row.entry.status ≡ draft)
      × (row.sales_category_id ≡ some category_id)
      × (db'.customer_at row.customer_id ≡ some customer)
      × (customer.sales_category_id ≡ some category_id)
unfolding create_dispatch
create_dispatch_homed strip now number date choice invoice notes lines user override reason db db'
      keyed e =
    let (_, e1) = raise_if_ok (is_empty lines) no_lines _ e in
    let (r, resolved, e2) = bind_ok (resolve_recipient strip choice user db) _ e1 in
    let (category, required, e3) = bind_ok (require_category r.category) _ e2 in
    let (marked, _, e4) =
      bind_ok (check_number (find_duplicate_number number none r.book) override reason user) _ e3 in
    let (built, _, e5) = bind_ok (build_lines db.products now lines) _ e4 in
    let home = resolve_recipient-IsHomed strip choice user db r keyed resolved in
    let row =
      new_dispatch r.book.next_id date number r.customer category invoice notes marked reason built
        user in
    rw (← ap (book_or db) e5) (
      r.book.next_id,
      row,
      r.customer,
      category.id,
      rw ((==_iff r.book.next_id r.book.next_id).1 refl) refl,
      refl,
      refl,
      refl,
      home.stored,
      home.homed category (require_category-some r.category category required),
    )
