-- ===== src/Dispatching/Made.antt =====
-- dispatch_service.py: the numbers of dispatches that are made, or sent to another recipient.
use text.Mathlib.Text.{◌==◌ as str_eq}
use Prim.Native.String.{◌++◌}
use daily_figures.Common.{
  ℕ, ◌≡◌, refl, sym, ◌∙◌, ap, inl, inr, Bool, false, not, ◌&&◌, Option, none, some, List, String,
  Bool-cases, Result, ok, raise, bind_ok, raise_if_ok, ◌>>=◌, ◌>>◌, raise_if,
}
use daily_figures.Records.{is_draft, User}
use daily_figures.Production.{LineInput}
use daily_figures.Dispatching.{
  DispatchError, name_required, recipient_required, other_category, no_lines, duplicate_number,
  override_reason_required, number_in_use, recipient_not_draft, DispatchRow, Book, Category,
  find_duplicate_number, is_blank, is_empty, text_of,
}
use daily_figures.Dispatching.Lines.{build_lines, as_inputs}
use daily_figures.Dispatching.Recipient.{
  Choice, Resolved, lookup_category, create_temporary_customer, new_recipient, is_missing,
  customer_of, is_of_other, or_own, resolve_recipient, require_category,
}
use daily_figures.Dispatching.Making.{
  check_number, is_super_admin, create_dispatch, update_recipient, duplicate_dispatch,
  copied_category, is_elsewhere, is_used, new_dispatch, copied_dispatch,
}
use daily_figures.Dispatching.Number.{
  IsNumbered, Keeps, Keeps-IsNumbered, KeepsNumber-refl, set_row-Keeps, add_dispatch-IsNumbered,
}

-- Tables with the same dispatches.
record SameRows (db db' : Book) : Type 0 where
  rows : db'.row_at ≡ db.row_at
  next : db'.next_id ≡ db.next_id

abbrev book_of : Book → Result DispatchError Resolved → Book
book_of d (ok r) = r.book
book_of d (raise e) = d

create_temporary_customer-SameRows :
    (strip : String → String) (name : Option String) (category : Category) (user : User) (db : Book)
    (r : Resolved)
    → create_temporary_customer strip name category user db ≡ ok r
    → SameRows db r.book
unfolding create_temporary_customer
create_temporary_customer-SameRows strip name category user db r e =
    let (_, e1) = raise_if_ok (str_eq (strip (text_of name)) "") name_required _ e in
    let book = ap (book_of db) e1 in
    record {
      rows = sym (ap (λ (b : Book). b.row_at) book);
      next = sym (ap (λ (b : Book). b.next_id) book);
    }

resolve_recipient-SameRows :
    (strip : String → String) (choice : Choice) (user : User) (db : Book) (r : Resolved)
    → resolve_recipient strip choice user db ≡ ok r
    → SameRows db r.book
unfolding resolve_recipient
resolve_recipient-SameRows strip choice user db r e =
    let (category, _, e1) = bind_ok (lookup_category choice.sales_category_id db) _ e in
    elim (Bool-cases (is_blank choice.new_customer_name)) [
      | inr named ↦ new_one category (rw named at e1)
      | inl unnamed ↦ known category (rw unnamed at e1)
    ]
  where
    new_one :
        (category : Option Category)
        → new_recipient strip choice.new_customer_name category user db ≡ ok r
        → SameRows db r.book
    new_one none h = absurd (cc)
    new_one (some category) h =
        create_temporary_customer-SameRows strip choice.new_customer_name category user db r h

    known :
        (category : Option Category)
        → (raise_if (is_missing choice.customer_id) recipient_required
            >> customer_of choice.customer_id db
            >>= λ customer.
                raise_if (is_of_other category customer) other_category
                >> ok (record {
                  book = db;
                  customer = customer;
                  category = or_own category customer db;
                }))
          ≡ ok r
        → SameRows db r.book
    known category h =
        let (customer, _, h1) =
          bind_ok
            (raise_if (is_missing choice.customer_id) recipient_required
              >> customer_of choice.customer_id db)
            _ h in
        let (_, h2) = raise_if_ok (is_of_other category customer) other_category _ h1 in
        let book = ap (book_of db) h2 in
        record {
          rows = sym (ap (λ (b : Book). b.row_at) book);
          next = sym (ap (λ (b : Book). b.next_id) book);
        }

SameRows-Keeps : (db db' : Book) → SameRows db db' → Keeps db db'
SameRows-Keeps db db' s = record {
  was = λ id b found. (
    b,
    ap (λ (f : ℕ → Option DispatchRow). f id) (sym s.rows) ∙ found,
    KeepsNumber-refl b b refl,
  );
  same_next = s.next;
}

check_number-free :
    (existing : Option ℕ) (override : Bool) (reason : Option String) (user : User) (marked : Bool)
    → check_number existing override reason user ≡ ok marked
    → marked ≡ false
    → existing ≡ none
check_number-free none override reason user marked e h = refl
check_number-free (some id) override reason user marked e h =
    let (_, e1) = raise_if_ok (not (override && is_super_admin user.role)) duplicate_number _ e in
    let (_, e2) = raise_if_ok (is_blank reason) override_reason_required _ e1 in cc

is_used-none : (o : Option ℕ) → is_used o ≡ false → o ≡ none
is_used-none none h = refl
is_used-none (some id) h = absurd (cc)

abbrev pub value : Book → Result DispatchError Book → Book
value d (ok db) = db
value d (raise e) = d

pub create_dispatch-IsNumbered :
    (strip : String → String) (now : ℕ) (number : String) (date : ℕ) (choice : Choice)
    (invoice notes : Option String) (lines : List LineInput) (user : User) (override : Bool)
    (reason : Option String) (db db' : Book)
    → IsNumbered db
    → create_dispatch strip now number date choice invoice notes lines user override reason db
      ≡ ok db'
    → IsNumbered db'
unfolding create_dispatch
create_dispatch-IsNumbered strip now number date choice invoice notes lines user override reason db
      db' n e =
    let (_, e1) = raise_if_ok (is_empty lines) no_lines _ e in
    let (r, resolved, e2) = bind_ok (resolve_recipient strip choice user db) _ e1 in
    let (category, _, e3) = bind_ok (require_category r.category) _ e2 in
    let (marked, checked, e4) =
      bind_ok (check_number (find_duplicate_number number none r.book) override reason user) _ e3 in
    let (built, _, e5) = bind_ok (build_lines db.products now lines) _ e4 in
    let n' =
      Keeps-IsNumbered db r.book
        (SameRows-Keeps db r.book (resolve_recipient-SameRows strip choice user db r resolved)) n in
    rw (← ap (value db) e5) (
      add_dispatch-IsNumbered
        (new_dispatch r.book.next_id date number r.customer category invoice notes marked reason
          built user)
        r.book n'
        (check_number-free (find_duplicate_number number none r.book) override reason user marked
          checked))

pub duplicate_dispatch-IsNumbered :
    (digits : ℕ → String) (now today : ℕ) (source : DispatchRow) (number : String) (user : User)
    (chosen : Option ℕ) (db db' : Book)
    → IsNumbered db
    → duplicate_dispatch digits now today source number user chosen db ≡ ok db'
    → IsNumbered db'
unfolding duplicate_dispatch
duplicate_dispatch-IsNumbered digits now today source number user chosen db db' n e =
    let (free, e1) =
      raise_if_ok (is_used (find_duplicate_number number none db)) number_in_use _ e in
    let (found, _, e2) =
      bind_ok (copied_category chosen source (db.customer_at source.customer_id) db) _ e1 in
    let (category, _, e3) = bind_ok (require_category found) _ e2 in
    let (_, e4) =
      raise_if_ok (is_elsewhere (db.customer_at source.customer_id) category) other_category _ e3 in
    let (built, _, e5) =
      bind_ok (build_lines db.products now (as_inputs source.entry.lines)) _ e4 in
    rw (← ap (value db) e5) (
      add_dispatch-IsNumbered
        (copied_dispatch db.next_id today number
          ("Duplicated from dispatch #" ++ digits source.entry.id) source
          (db.customer_at source.customer_id) category built user)
        db n (λ _. is_used-none (find_duplicate_number number none db) free))

pub update_recipient-IsNumbered :
    (strip : String → String) (id : ℕ) (row : DispatchRow) (choice : Choice) (user : User)
    (db db' : Book)
    → IsNumbered db
    → db.row_at id ≡ some row
    → update_recipient strip id row choice user db ≡ ok db'
    → IsNumbered db'
unfolding update_recipient
update_recipient-IsNumbered strip id row choice user db db' n found e =
    let (_, e1) = raise_if_ok (not (is_draft row.entry.status)) recipient_not_draft _ e in
    let (r, resolved, e2) = bind_ok (resolve_recipient strip choice user db) _ e1 in
    let (category, _, e3) = bind_ok (require_category r.category) _ e2 in
    let same = resolve_recipient-SameRows strip choice user db r resolved in
    let n' = Keeps-IsNumbered db r.book (SameRows-Keeps db r.book same) n in
    rw (← ap (value db) e3) (
      Keeps-IsNumbered r.book _
        (set_row-Keeps id row _ r.book (ap (λ (f : ℕ → Option DispatchRow). f id) same.rows ∙ found)
          record { number = refl; mark = refl; stays_void = λ h. h })
        n')
