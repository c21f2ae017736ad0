-- ===== src/Dispatching/Recipient.antt =====
-- dispatch_service.py: who a dispatch goes to.
use text.Mathlib.Text.{◌==◌ as str_eq}
use daily_figures.Common.{
  ℕ, ◌+◌, Bool, true, false, not, Option, none, some, String, ◌==◌, if◌then◌else◌, Result, ok,
  raise, ◌>>=◌, ◌>>◌, raise_if,
}
use daily_figures.Records.{User}
use daily_figures.Dispatching.{
  DispatchError, category_missing, new_customer_category, name_required, recipient_required,
  recipient_missing, other_category, category_required, Category, Customer, Book, is_blank, text_of,
}

-- What is chosen of a recipient and a category.
pub record Choice : Type 0 where
  pub customer_id : Option ℕ
  pub new_customer_name : Option String
  pub sales_category_id : Option ℕ

-- The recipient, the category, and the tables with the recipient if it is new.
pub record Resolved : Type 0 where
  pub book : Book
  pub customer : Customer
  pub category : Option Category

abbrev pub lookup_category : Option ℕ → Book → Result DispatchError (Option Category)
lookup_category none db = ok none
lookup_category (some id) db = elim (db.category_at id) [
  | none ↦ raise category_missing
  | some category ↦ ok (some category)
]

-- customer_service.py, `create_temporary_customer`; `strip` is Python's `str.strip`.
abbrev temporary_customer : (id : ℕ) → (name : String) → Category → User → Customer
temporary_customer id name category user = record {
  id = id;
  name = name;
  sales_category_id = some category.id;
  is_temporary = true;
  created_by = some user.id;
}

abbrev add_customer : Customer → Book → Book
add_customer customer db = record db {
  customer_at = λ id. if id == db.next_customer_id then some customer else db.customer_at id;
  next_customer_id = db.next_customer_id + 1;
}

unfoldable pub create_temporary_customer :
    (strip : String → String)
    → (name : Option String) → Category
    → User
    → Book
    → Result DispatchError Resolved
create_temporary_customer strip name category user db = do
  raise_if (str_eq (strip (text_of name)) "") name_required
  ok (record {
    book =
        add_customer (temporary_customer db.next_customer_id (strip (text_of name)) category user)
          db;
    customer = temporary_customer db.next_customer_id (strip (text_of name)) category user;
    category = some category;
  })

-- `not customer_id`
abbrev pub is_missing : Option ℕ → Bool
is_missing none = true
is_missing (some id) = id == 0

abbrev pub customer_of : Option ℕ → Book → Result DispatchError Customer
customer_of none db = raise recipient_required
customer_of (some id) db = elim (db.customer_at id) [
  | none ↦ raise recipient_missing
  | some customer ↦ ok customer
]

abbrev pub same_id : Option ℕ → ℕ → Bool
same_id none id = false
same_id (some own) id = own == id

-- `category is not None and customer.sales_category_id != category.id`
abbrev pub is_of_other : Option Category → Customer → Bool
is_of_other none customer = false
is_of_other (some category) customer = not (same_id customer.sales_category_id category.id)

-- `customer.sales_category`
abbrev pub own_category : Option ℕ → Book → Option Category
own_category none db = none
own_category (some id) db = db.category_at id

abbrev pub or_own : Option Category → Customer → Book → Option Category
or_own none customer db = own_category customer.sales_category_id db
or_own (some category) customer db = some category

abbrev pub new_recipient :
    (strip : String → String)
    → (name : Option String) → Option Category
    → User
    → Book
    → Result DispatchError Resolved
new_recipient strip name none user db = raise new_customer_category
new_recipient strip name (some category) user db =
    create_temporary_customer strip name category user db

unfoldable pub resolve_recipient :
    (strip : String → String) → Choice → User → Book → Result DispatchError Resolved
resolve_recipient strip choice user db = do
  category ← lookup_category choice.sales_category_id db
  if not (is_blank choice.new_customer_name)
      then new_recipient strip choice.new_customer_name category user db
      else raise_if (is_missing choice.customer_id) recipient_required
        >> customer_of choice.customer_id db
        >>= λ customer.
            raise_if (is_of_other category customer) other_category
            >> ok
                (record { book = db; customer = customer; category = or_own category customer db })

abbrev pub require_category : Option Category → Result DispatchError Category
require_category none = raise category_required
require_category (some category) = ok category
