-- ===== src/Dispatching/Making.antt =====
-- dispatch_service.py: a dispatch that is made, sent to another recipient, or copied.
use Prim.Native.String.{◌++◌}
use daily_figures.Common.{
  ℕ, ◌+◌, Bool, true, false, not, ◌&&◌, Option, none, some, List, String, ◌==◌, if◌then◌else◌,
  Result, ok, ◌>>=◌, ◌>>◌, raise_if,
}
use daily_figures.Records.{day, draft, is_draft, Line, Dispatch, User, Role, super_admin}
use daily_figures.Production.{LineInput}
use daily_figures.Dispatching.{
  DispatchError, other_category, duplicate_number, override_reason_required, number_in_use,
  recipient_not_draft, no_lines, Category, Customer, DispatchRow, Book, find_duplicate_number,
  set_row, is_blank, is_empty,
}
use daily_figures.Dispatching.Lines.{build_lines, as_inputs}
use daily_figures.Dispatching.Recipient.{
  Choice, lookup_category, own_category, or_own, resolve_recipient, require_category,
}

abbrev pub is_super_admin : Role → Bool
is_super_admin super_admin = true
is_super_admin _ = false

-- The refusal of a number that is in use, or the override of a super administrator.
abbrev pub check_number :
    (existing : Option ℕ)
    → (override_duplicate : Bool) → (override_reason : Option String) → User
    → Result DispatchError Bool
check_number none override reason user = ok false
check_number (some id) override reason user = do
  raise_if (not (override && is_super_admin user.role)) duplicate_number
  raise_if (is_blank reason) override_reason_required
  ok true

abbrev if_overridden : Bool → Option String → Option String
if_overridden true reason = reason
if_overridden false reason = none

abbrev pub book_entry : (id date : ℕ) → List Line → Dispatch
book_entry id date lines = record {
  id = id;
  date = date;
  shift = day;
  status = draft;
  lines = lines;
}

abbrev pub new_dispatch :
    (id date : ℕ)
    → (number : String) → Customer
    → Category
    → (invoice_number notes : Option String) → (overridden : Bool)
    → (override_reason : Option String) → List Line
    → User
    → DispatchRow
new_dispatch id date number customer category invoice notes overridden reason lines user = record {
  entry = book_entry id date lines;
  dispatch_number = number;
  customer_id = customer.id;
  invoice_number = invoice;
  notes = notes;
  sales_category_id = some category.id;
  sales_category_name_snapshot = some category.name;
  customer_name_snapshot = some customer.name;
  duplicate_override = overridden;
  duplicate_override_reason = if_overridden overridden reason;
  created_by = some user.id;
  updated_by = some user.id;
  finalized_by = none;
  finalized_at = none;
  voided_by = none;
  voided_at = none;
  void_reason = none;
}

abbrev pub add_dispatch : DispatchRow → Book → Book
add_dispatch row db = record db {
  row_at = λ id. if id == db.next_id then some row else db.row_at id;
  next_id = db.next_id + 1;
}

unfoldable pub create_dispatch :
    (strip : String → String)
    → (now : ℕ) → (number : String) → (date : ℕ) → Choice
    → (invoice_number notes : Option String) → List LineInput
    → User
    → (override_duplicate : Bool) → (override_reason : Option String) → Book
    → Result DispatchError Book
create_dispatch strip now number date choice invoice notes lines user override reason db = do
  raise_if (is_empty lines) no_lines
  resolved ← resolve_recipient strip choice user db
  category ← require_category resolved.category
  overridden ← check_number (find_duplicate_number number none resolved.book) override reason user
  built ← build_lines db.products now lines
  ok (
      add_dispatch
        (new_dispatch resolved.book.next_id date number resolved.customer category invoice notes
          overridden reason built user)
        resolved.book)

unfoldable pub update_recipient :
    (strip : String → String)
    → (id : ℕ) → DispatchRow
    → Choice
    → User
    → Book
    → Result DispatchError Book
update_recipient strip id r choice user db = do
  raise_if (not (is_draft r.entry.status)) recipient_not_draft
  resolved ← resolve_recipient strip choice user db
  category ← require_category resolved.category
  ok (
      set_row id
        (record r {
          customer_id = resolved.customer.id;
          sales_category_id = some category.id;
          customer_name_snapshot = some resolved.customer.name;
          sales_category_name_snapshot = some category.name;
          updated_by = some user.id;
        })
        resolved.book)

-- The category of a copy: the one that is asked for, else the source's, else the recipient's own.
abbrev pub copied_category :
    (chosen : Option ℕ)
    → DispatchRow
    → Option Customer
    → Book
    → Result DispatchError (Option Category)
copied_category (some id) source customer db = lookup_category (some id) db
copied_category none source none db = ok (own_category source.sales_category_id db)
copied_category none source (some customer) db =
    ok (or_own (own_category source.sales_category_id db) customer db)

-- `source_customer.sales_category_id not in (None, category.id)`
abbrev pub is_elsewhere : Option Customer → Category → Bool
is_elsewhere none category = false
is_elsewhere (some customer) category = elim customer.sales_category_id [
  | none ↦ false
  | some id ↦ not (id == category.id)
]

abbrev pub copied_name : Option Customer → DispatchRow → Option String
copied_name none source = source.customer_name_snapshot
copied_name (some customer) source = some customer.name

abbrev pub copied_dispatch :
    (id today : ℕ)
    → (number : String) → (notes : String) → DispatchRow
    → Option Customer
    → Category
    → List Line
    → User
    → DispatchRow
copied_dispatch id today number notes source customer category lines user = record {
  entry = book_entry id today lines;
  dispatch_number = number;
  customer_id = source.customer_id;
  invoice_number = none;
  notes = some notes;
  sales_category_id = some category.id;
  sales_category_name_snapshot = some category.name;
  customer_name_snapshot = copied_name customer source;
  duplicate_override = false;
  duplicate_override_reason = none;
  created_by = some user.id;
  updated_by = some user.id;
  finalized_by = none;
  finalized_at = none;
  voided_by = none;
  voided_at = none;
  void_reason = none;
}

abbrev pub is_used : Option ℕ → Bool
is_used none = false
is_used (some id) = true

-- `today` is the date of `now`, and `digits` Python's `str` of an integer.
unfoldable pub duplicate_dispatch :
    (digits : ℕ → String)
    → (now today : ℕ) → DispatchRow
    → (number : String) → User
    → (sales_category_id : Option ℕ) → Book
    → Result DispatchError Book
duplicate_dispatch digits now today source number user chosen db = do
  raise_if (is_used (find_duplicate_number number none db)) number_in_use
  found ← copied_category chosen source (db.customer_at source.customer_id) db
  category ← require_category found
  raise_if (is_elsewhere (db.customer_at source.customer_id) category) other_category
  built ← build_lines db.products now (as_inputs source.entry.lines)
  ok (
      add_dispatch
        (copied_dispatch db.next_id today number
          ("Duplicated from dispatch #" ++ digits source.entry.id) source
          (db.customer_at source.customer_id) category built user)
        db)
